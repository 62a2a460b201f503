-- ===== src/Dialect/Tests.antt =====
-- Quoted names of each dialect, and an instance of the round trip.
use data_profiler.Prelude.{◌≡◌, refl, some, lit, replace_byte, ◌++◌, All, not}
use data_profiler.Dialect.{postgres, mysql, sqlserver, quote, read_quoted}
use data_profiler.Dialect.Quoting.{read_quoted-quote}
use data_profiler.Dialect.Query.{named, text}
use data_profiler.Dialect.Balance.{plain, scan, ends_well, IsBalanced}
use data_profiler.Dialect.Methods.{numeric_histogram_query}
use data_profiler.Dialect.Queries.{
  table_of, queries, is_postgres, queries-IsBalanced, numeric_histogram_query-balance,
}

quote_tests :
    (quote postgres (lit "a b") ≡ lit "\"a b\"")
    × (quote mysql (lit "x`y") ≡ lit "`x``y`")
    × (quote sqlserver (lit "a]; DROP") ≡ lit "[a]]; DROP]")
unfolding quote replace_byte lit
quote_tests = (refl, refl, refl)

read_quoted-quote_example :
    read_quoted sqlserver (quote sqlserver (lit "a]; DROP") ++ lit ".t")
    ≡ some (lit "a]; DROP", lit ".t")
unfolding lit
read_quoted-quote_example = read_quoted-quote sqlserver (lit "a]; DROP") (lit ".t") refl

queries-IsBalanced_example :
    All
      (IsBalanced mysql)
      (queries mysql (table_of (lit "shop") (lit "a`b")) (named (lit "x)y")) (named (lit "total")))
queries-IsBalanced_example =
    queries-IsBalanced mysql (lit "shop") (lit "a`b") (lit "x)y") (lit "total")

numeric_histogram_query-balance_example :
    ends_well (
      scan postgres
        (plain, 0)
        (text postgres (
          numeric_histogram_query postgres
            (named (lit "total"))
            (table_of (lit "shop") (lit "orders")))))
    ≡ not (is_postgres postgres)
numeric_histogram_query-balance_example =
    numeric_histogram_query-balance postgres (lit "shop") (lit "orders") (lit "total")
