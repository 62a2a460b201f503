-- ===== src/Dialect/Queries.antt =====
-- The queries of the three dialects for a column of a table.
use data_profiler.Prelude.{
  ◌≡◌, refl, ap, ◌∙◌, Bool, true, false, not, ◌&&◌, Option, arith, none, some, List, [], ◌∷◌, Str,
  lit, All,
}
use data_profiler.Dialect.Query.{Query, sql, named, join, text}
use data_profiler.Dialect.Balance.{
  State, plain, plain_step, step, scan, scan_pieces, ends_well, IsBalanced, scan-text,
}
use data_profiler.Dialect.Postgres
use data_profiler.Dialect.Mysql
use data_profiler.Dialect.SqlServer
use data_profiler.Dialect.Methods.{
  tables_query, columns_query, count_expr, length_expr, cast_text, numeric_stats_expr,
  numeric_advanced_stats_query, numeric_histogram_query, future_date_count_expr,
  date_range_days_expr, date_distribution_query, pattern_counts_query, numeric_correlation_query,
  relationships_query,
}
use data_profiler.Dialect.{Dialect, postgres, mysql, sqlserver}

abbrev pub table_of : Str → Str → Query
table_of schema table = join (named schema ∷ sql "." ∷ named table ∷ [])

-- Each query and each part of a query that a dialect makes for a table, a column and another column, less
-- the histogram.
abbrev pub queries : Dialect → Query → Query → Query → List Query
queries d table c other =
    tables_query d
    ∷ columns_query d
    ∷ relationships_query d
    ∷ count_expr d table
    ∷ length_expr d c
    ∷ cast_text d c
    ∷ numeric_stats_expr d c
    ∷ future_date_count_expr d c
    ∷ date_range_days_expr d c
    ∷ numeric_advanced_stats_query d table c
    ∷ date_distribution_query d c table
    ∷ pattern_counts_query d c table
    ∷ numeric_correlation_query d c other table
    ∷ []

abbrev pub is_postgres : Dialect → Bool
is_postgres postgres = true
is_postgres _ = false

-- A balance that the pieces show is one of the text.
abbrev pub passes : Option (Option State) → Bool
passes none = false
passes (some o) = ends_well o

pub IsBalanced-of :
    (d : Dialect) (q : Query) → passes (scan_pieces d (plain, 0) q) ≡ true → IsBalanced d q
IsBalanced-of d q h = go (scan_pieces d (plain, 0) q) refl h
  where
    go :
        (o : Option (Option State))
        → scan_pieces d (plain, 0) q ≡ o
        → passes o ≡ true
        → IsBalanced d q
    go none e h' = cc h'
    go (some o) e h' = ap ends_well (scan-text d (plain, 0) q o e) ∙ h'

abbrev pub all_pass : Dialect → List Query → Bool
all_pass d [] = true
all_pass d (q ∷ qs) = passes (scan_pieces d (plain, 0) q) && all_pass d qs

pub All-IsBalanced_of :
    (d : Dialect) (qs : List Query) → all_pass d qs ≡ true → All (IsBalanced d) qs
All-IsBalanced_of d [] h = tt
All-IsBalanced_of d (q ∷ qs) h =
    (IsBalanced-of d q (ground arith), All-IsBalanced_of d qs (ground arith))

-- In each of these every literal and identifier ends and every parenthesis has its partner, whatever
-- bytes the names of the schema, the table and the columns hold.
pub queries-IsBalanced :
    (d : Dialect) (schema table column other : Str)
    → All (IsBalanced d) (queries d (table_of schema table) (named column) (named other))
unfolding tables_query columns_query relationships_query count_expr length_expr cast_text
    numeric_stats_expr future_date_count_expr date_range_days_expr numeric_advanced_stats_query
    date_distribution_query pattern_counts_query numeric_correlation_query Postgres.tables_query
    Postgres.columns_query Postgres.relationships_query Postgres.count_expr Postgres.length_expr
    Postgres.cast_text Postgres.numeric_stats_expr Postgres.future_date_count_expr
    Postgres.date_range_days_expr Postgres.numeric_advanced_stats_query
    Postgres.date_distribution_query Postgres.pattern_counts_query
    Postgres.numeric_correlation_query Mysql.tables_query Mysql.columns_query
    Mysql.relationships_query Mysql.count_expr Mysql.length_expr Mysql.cast_text
    Mysql.numeric_stats_expr Mysql.future_date_count_expr Mysql.date_range_days_expr
    Mysql.numeric_advanced_stats_query Mysql.date_distribution_query Mysql.pattern_counts_query
    Mysql.numeric_correlation_query SqlServer.tables_query SqlServer.columns_query
    SqlServer.relationships_query SqlServer.count_expr SqlServer.length_expr SqlServer.cast_text
    SqlServer.numeric_stats_expr SqlServer.future_date_count_expr SqlServer.date_range_days_expr
    SqlServer.numeric_advanced_stats_query SqlServer.date_distribution_query
    SqlServer.pattern_counts_query SqlServer.numeric_correlation_query lit scan scan_pieces step
    plain_step
queries-IsBalanced postgres schema table column other =
    All-IsBalanced_of postgres
      (queries postgres (table_of schema table) (named column) (named other)) refl
queries-IsBalanced mysql schema table column other =
    All-IsBalanced_of mysql (queries mysql (table_of schema table) (named column) (named other))
      refl
queries-IsBalanced sqlserver schema table column other =
    All-IsBalanced_of sqlserver
      (queries sqlserver (table_of schema table) (named column) (named other)) refl

-- The histogram query is balanced in MySQL and in SQL Server and is not in Postgres, whatever the names are.
pub numeric_histogram_query-balance :
    (d : Dialect) (schema table column : Str)
    → ends_well (
        scan d
          (plain, 0)
          (text d (numeric_histogram_query d (named column) (table_of schema table))))
      ≡ not (is_postgres d)
unfolding numeric_histogram_query Postgres.numeric_histogram_query Mysql.numeric_histogram_query
    SqlServer.numeric_histogram_query lit scan scan_pieces step plain_step
numeric_histogram_query-balance postgres schema table column = ap ends_well (
    scan-text postgres (plain, 0)
      (numeric_histogram_query postgres (named column) (table_of schema table)) none refl)
numeric_histogram_query-balance mysql schema table column =
    IsBalanced-of mysql (numeric_histogram_query mysql (named column) (table_of schema table)) refl
numeric_histogram_query-balance sqlserver schema table column =
    IsBalanced-of sqlserver
      (numeric_histogram_query sqlserver (named column) (table_of schema table)) refl
