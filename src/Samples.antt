-- ===== src/Samples.antt =====
-- Profiles of internal/domain/models.go on which the tests run.
use data_profiler.Prelude.{ℕ, true, false, none, List, [], ◌∷◌, Str, lit}
use data_profiler.Prelude.Int.{pos}
use data_profiler.Prelude.Rational.{Fraction}
use data_profiler.Domain.{ColumnProfile, TableProfile}

abbrev pub whole : ℕ → Fraction
whole n = (pos n, 1)

-- A column of ten rows, of which `nulls` are null and the others all different.
abbrev pub column : Str → Str → ℕ → ℕ → ColumnProfile Fraction
column name data_type nulls distinct = record {
  name = name;
  data_type = data_type;
  nullable = true;
  total_rows = pos 10;
  null_count = pos nulls;
  null_percentage = (pos nulls, 10);
  distinct_count = pos distinct;
  distinct_percentage = (pos distinct, 10);
  empty_count = pos 0;
  whitespace_count = pos 2;
  zero_count = pos 0;
  min = none;
  max = none;
  avg = none;
  sum = none;
  variance = none;
  skewness = none;
  kurtosis = none;
  std_dev = none;
  median = none;
  p50 = none;
  p75 = none;
  p90 = none;
  p95 = none;
  p99 = none;
  min_length = none;
  max_length = none;
  avg_length = none;
  future_date_count = pos 1;
  future_date_percentage = whole 10;
  date_range_days = none;
  date_distribution = [];
  top_values = [];
  patterns = [];
  pii = [];
  pii_confidence = whole 0;
  outlier_count = pos 0;
  outlier_percentage = whole 0;
  histogram = [];
  entropy = none;
  normalized_entropy = none;
}

abbrev pub profile : List (ColumnProfile Fraction) → TableProfile Fraction
profile columns = record {
  schema = lit "public";
  table = lit "users";
  total_rows = pos 10;
  sampled = false;
  sample_size = pos 10;
  columns = columns;
  duplicate_row_count = pos 1;
  duplicate_row_percentage = whole 10;
  quality = record { score = whole 100; checks = [] };
  drift = none;
  correlations = [];
  relationships = [];
  created_at = 0;
}

abbrev pub users : TableProfile Fraction
users =
    profile
      (column (lit "user_id") (lit "bigint") 0 8 ∷ column (lit "born_date") (lit "date") 3 7 ∷ [])

abbrev pub users_later : TableProfile Fraction
users_later =
    profile (column (lit "user_id") (lit "text") 0 8 ∷ column (lit "note") (lit "text") 3 7 ∷ [])
