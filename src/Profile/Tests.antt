-- ===== src/Profile/Tests.antt =====
-- A source with two columns, and instances of the theorems about its profile.
use data_profiler.Prelude.{
  ℕ, zero, suc, ◌≤◌, ◌≡◌, All, ◌⊎◌, refl, sym, ap, true, false, Option, none, some, List, [], ◌∷◌,
  Str, lit, to_lower, str_eq, length, get_elem?, arith,
}
use data_profiler.Prelude.Int.{ℤ, pos}
use data_profiler.Prelude.Rational.{Fraction, fraction}
use data_profiler.Domain.{ColumnProfile, TableProfile}
use data_profiler.Store.{Result, ok, err}
use data_profiler.Dialect.{postgres}
use data_profiler.Dialect.Query.{Query, named, text}
use data_profiler.Dialect.Methods.{columns_query, sample_table_expr}
use data_profiler.Profile.Source.{Source, Rows, no_rows, rows}
use data_profiler.Profile.Column.{ColumnMeta, empty_profile, profile_column}
use data_profiler.Profile.Gather.{Event, finishes, gives_up, gather, gather_all}
use data_profiler.Profile.Table.{Course, read_columns, scan_columns, profile_table}
use data_profiler.Profile.Orders.{Covers, firsts, all_found, gather_all-orders}
use data_profiler.Dialect.Balance.{IsBalanced}
use data_profiler.Profile.Queries.{qualified}
use data_profiler.Profile.Syntax.{column_queries, column_queries-IsBalanced}
use data_profiler.Prelude.Float.{Float64}
use data_profiler.Profile.Details.{add_numeric_histogram}
use data_profiler.Profile.Bins.{AllFilled, add_numeric_histogram-AllFilled}
use data_profiler.Profile.Cancelled.{gather_all-missing}
use data_profiler.Profile.Reports.{profile_table-orders}
use data_profiler.Profile.Optional.{Others, answering, profile_table-optional}
use data_profiler.Profile.Columns.{Reads, AllDescribe, profile_table-columns}

abbrev rejected : List (ℕ × Option Str)
rejected = (7, none) ∷ (8, some (lit "no")) ∷ []

abbrev backwards : List Event
backwards = finishes 1 ∷ finishes 0 ∷ []

backwards-Covers : Covers backwards 2
backwards-Covers zero h = refl
backwards-Covers (suc zero) h = refl
backwards-Covers (suc (suc i)) h = absurd (omega arith)

forwards-Covers : Covers (finishes 0 ∷ finishes 1 ∷ []) 2
forwards-Covers zero h = refl
forwards-Covers (suc zero) h = refl
forwards-Covers (suc (suc i)) h = absurd (omega arith)

gather_all-orders_example :
    ((all_found rejected ≡ true) × (gather_all 0 rejected backwards ≡ ok (firsts rejected)))
    ⊎ ((all_found rejected ≡ false) × ((e : Str) × (gather_all 0 rejected backwards ≡ err e)))
gather_all-orders_example = gather_all-orders 0 rejected backwards backwards-Covers

gather_all-missing_example :
    (out : List ℕ) × (gather_all 0 ((7, none) ∷ (8, none) ∷ []) (finishes 0 ∷ gives_up 1 ∷ [])
      ≡ ok out)
    × (get_elem? out 1 ≡ some 0)
gather_all-missing_example =
    gather_all-missing 0 ((7, none) ∷ (8, none) ∷ []) (finishes 0 ∷ gives_up 1 ∷ []) 1 refl
      (omega arith) refl

-- Every query that may fail fails.
abbrev users_source : Source Fraction
users_source = record {
  count = λ q. ok (pos 5);
  nullable_count = λ q. err [];
  nullable_float = λ q. err [];
  aggregates = λ q. ok (record {
    null_count = pos 1;
    distinct_count = pos 3;
    min_len = none;
    max_len = none;
    avg_len = none;
    empty_count = pos 0;
    whitespace_count = pos 0;
    min_value = none;
    max_value = none;
    avg_num = none;
    zero_count = pos 0;
    future_date_count = none;
    date_range_days = none;
  });
  moments = λ q. err [];
  percentiles = λ q. err [];
  column_rows = λ q s t.
      rows (ok (lit "id", lit "integer", lit "NO") ∷ ok (lit "name", lit "text", lit "YES") ∷ [])
        none;
  relationship_rows = λ q s t. no_rows [];
  value_rows = λ q. no_rows [];
  bucket_rows = λ q. no_rows [];
  group_rows = λ q. no_rows [];
}

abbrev course_of : List Event → Course
course_of es = record { events = es; done = λ n. false }

abbrev id_and_name : List ColumnMeta
id_and_name =
    record { name = lit "id"; data_type = lit "integer"; nullable = false }
    ∷ record { name = lit "name"; data_type = lit "text"; nullable = true }
    ∷ []

abbrev users_profile : Course → Result (TableProfile Fraction)
users_profile course =
    profile_table fraction users_source postgres course (lit "public") (lit "users") (pos 0)

-- The columns that this source lists are these.
abbrev Listed : List ColumnMeta → Type 0
Listed cols =
    read_columns (
      users_source.column_rows (text postgres (columns_query postgres)) (lit "public")
        (lit "users"))
    ≡ ok cols

listed : Listed id_and_name
unfolding scan_columns lit to_lower str_eq
listed = refl

length-Listed : (cols : List ColumnMeta) → Listed cols → length cols ≡ 2
length-Listed cols h =
    let same : id_and_name ≡ cols = let other = listed in cc (h, other) in
    ap (λ l. length l) (sym same)

Covers-both :
    (cols : List ColumnMeta)
    → Listed cols
    → Covers backwards (length cols) × Covers (finishes 0 ∷ finishes 1 ∷ []) (length cols)
Covers-both cols h = rw (length-Listed cols h) (backwards-Covers, forwards-Covers)

profiled : (p : TableProfile Fraction) × (users_profile (course_of backwards) ≡ ok p)
unfolding profile_table scan_columns lit gather gather_all profile_column sample_table_expr
profiled = (_, refl)

profile_table-orders_example :
    users_profile (course_of (finishes 0 ∷ finishes 1 ∷ [])) ≡ ok profiled.0
profile_table-orders_example =
    profile_table-orders fraction users_source postgres (lit "public") (lit "users") (pos 0)
      (course_of backwards) (finishes 0 ∷ finishes 1 ∷ []) profiled.0 Covers-both profiled.1

profile_table-columns_example :
    (from : Query) × (total : ℤ) × (cols : List ColumnMeta) × Reads fraction users_source postgres
      (lit "public")
      (lit "users")
      (pos 0)
      from
      total
    × Listed cols
    × AllDescribe fraction users_source postgres from total cols profiled.0.columns
profile_table-columns_example =
    profile_table-columns fraction users_source postgres (course_of backwards) (lit "public")
      (lit "users") (pos 0) profiled.0 (λ cols h. (Covers-both cols h).0) profiled.1

-- Other answers: a single null where the columns' values were not to be had.
abbrev nothing_found : Others Fraction
nothing_found = record {
  nullable_count = λ q. ok none;
  nullable_float = λ q. ok none;
  moments = λ q. err [];
  percentiles = λ q. err [];
  relationship_rows = λ q s t. rows [] none;
  value_rows = λ q. rows [] none;
  bucket_rows = λ q. rows [] none;
  group_rows = λ q. rows [] none;
}

profile_table-optional_example :
    (q : TableProfile Fraction) × (profile_table fraction
        (answering users_source nothing_found)
        postgres
        (course_of backwards)
        (lit "public")
        (lit "users")
        (pos 0)
      ≡ ok q)
profile_table-optional_example =
    profile_table-optional fraction users_source postgres nothing_found (course_of backwards)
      (lit "public") (lit "users") (pos 0) profiled.0 (λ cols h. (Covers-both cols h).0) profiled.1

column_queries-IsBalanced_example :
    All
      (IsBalanced postgres)
      (column_queries postgres (qualified (lit "public") (lit "us\"ers")) (named (lit "it's")))
column_queries-IsBalanced_example =
    column_queries-IsBalanced postgres (lit "public") (lit "us\"ers") (lit "it's")

-- A number is read as the length of its text.
abbrev by_length : Float64
by_length = record fraction { parse_float = λ s. some (pos (length s), 1) }

abbrev ages : ColumnProfile Fraction
ages = record (empty_profile by_length) { min = some (lit "1"); max = some (lit "100") }

abbrev buckets : Rows (ℤ × ℤ)
buckets = rows (ok (pos 0, pos 4) ∷ ok (pos 3, pos 0) ∷ ok (pos 9, pos 2) ∷ []) none

add_numeric_histogram-AllFilled_example :
    (length (add_numeric_histogram by_length buckets (pos 6) ages).histogram ≤ 10)
    × AllFilled by_length (add_numeric_histogram by_length buckets (pos 6) ages).histogram
add_numeric_histogram-AllFilled_example =
    add_numeric_histogram-AllFilled by_length buckets (pos 6) ages refl
