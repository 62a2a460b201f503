-- ===== src/Profile/Source.antt =====
-- The source's database as internal/adapters/profile.go meets it: for each query text, what
-- `QueryRowContext(...).Scan(...)` or `QueryContext(...)` and its rows give.
use data_profiler.Prelude.{Option, List, [], ◌∷◌, Str}
use data_profiler.Prelude.Int.{ℤ}
use data_profiler.Store.{Result, ok, err}

-- A query that fails, or the result of `Scan` for each row in turn and of `rows.Err()` after the last.
pub data Rows (A : Type 0) : Type 0 where
  no_rows : Str → Rows A
  rows : List (Result A) → Option Str → Rows A

-- The thirteen columns of the query for one column's aggregates. `none` is NULL.
pub record Aggregates (F : Type 0) : Type 0 where
  pub null_count : ℤ
  pub distinct_count : ℤ
  pub min_len : Option ℤ
  pub max_len : Option ℤ
  pub avg_len : Option F
  pub empty_count : ℤ
  pub whitespace_count : ℤ
  pub min_value : Option Str
  pub max_value : Option Str
  pub avg_num : Option F
  pub zero_count : ℤ
  pub future_date_count : Option ℤ
  pub date_range_days : Option F

pub record Moments (F : Type 0) : Type 0 where
  pub sum : Option F
  pub variance : Option F
  pub skewness : Option F
  pub kurtosis : Option F

pub record Percentiles (F : Type 0) : Type 0 where
  pub stddev : Option F
  pub median : Option F
  pub p75 : Option F
  pub p90 : Option F
  pub p95 : Option F
  pub p99 : Option F

-- Which of these a query is asked for follows from what the code scans into. The queries on the catalogue
-- take the schema and the table as arguments.
pub record Source (F : Type 0) : Type 0 where
  pub count : Str → Result ℤ
  pub nullable_count : Str → Result (Option ℤ)
  pub nullable_float : Str → Result (Option F)
  pub aggregates : Str → Result (Aggregates F)
  pub moments : Str → Result (Moments F)
  pub percentiles : Str → Result (Percentiles F)
  pub column_rows : Str → Str → Str → Rows (Str × Str × Str)
  pub relationship_rows : Str → Str → Str → Rows (Str × Str × Str × Str)
  pub value_rows : Str → Rows (Str × ℤ)
  pub bucket_rows : Str → Rows (ℤ × ℤ)
  pub group_rows : Str → Rows ℤ

-- `for rows.Next() { if err := rows.Scan(...); err != nil { return } ... }`
abbrev pub until_error {ℓ} : {A : Type ℓ} → List (Result A) → List A
until_error [] = []
until_error (ok a ∷ rs) = a ∷ until_error rs
until_error (err e ∷ rs) = []

-- `for rows.Next() { if rows.Scan(...) == nil { ... } }`
abbrev pub successes {ℓ} : {A : Type ℓ} → List (Result A) → List A
successes [] = []
successes (ok a ∷ rs) = a ∷ successes rs
successes (err e ∷ rs) = successes rs

-- The rows that such a loop sees: none where the query fails.
abbrev pub scanned : {A : Type 0} → Rows A → List (Result A)
scanned (no_rows e) = []
scanned (rows rs last) = rs
