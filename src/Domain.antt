-- ===== src/Domain.antt =====
-- internal/domain/models.go: the structs that the other packages exchange. `F` is float64, a pointer
-- is an `Option`, an int64 is a `ℤ` and a time is a count of nanoseconds.
use data_profiler.Prelude.{ℕ, Bool, Option, List, Str}
use data_profiler.Prelude.Int.{ℤ}

pub record SourceConfig : Type 0 where
  pub typ : Str
  pub dsn : Str

pub record QualityRules (F : Type 0) : Type 0 where
  pub null_percentage_threshold : Option F
  pub dominant_value_percentage : Option F
  pub high_cardinality_percentage : Option F
  pub allow_empty : Option Bool
  pub allow_whitespace : Option Bool

pub record ProfileRequest (F : Type 0) : Type 0 where
  pub source : SourceConfig
  pub schema : Str
  pub table : Str
  pub sample_size : ℤ
  pub quality_rules : Option (QualityRules F)

-- The four literals that the program stores in `Job.Status`.
pub data Status : Type 0 where
  queued running completed failed : Status

pub record Job (F : Type 0) : Type 0 where
  pub id : Str
  pub status : Status
  pub error : Str
  pub request : ProfileRequest F
  pub idempotency_key : Str
  pub created_at : ℕ
  pub started_at : Option ℕ
  pub finished_at : Option ℕ

pub record DateDistribution (F : Type 0) : Type 0 where
  pub period : Str
  pub count : ℤ
  pub percentage : F

pub record PatternCount (F : Type 0) : Type 0 where
  pub pattern_name : Str
  pub count : ℤ
  pub percentage : F

pub record HistogramBin (F : Type 0) : Type 0 where
  pub lower : F
  pub upper : F
  pub count : ℤ
  pub percentage : F

pub record ValueCount (F : Type 0) : Type 0 where
  pub value : Str
  pub count : ℤ
  pub percentage : F

pub record Correlation (F : Type 0) : Type 0 where
  pub column_a : Str
  pub column_b : Str
  pub coefficient : F

pub record Relationship : Type 0 where
  pub column : Str
  pub target_schema : Str
  pub target_table : Str
  pub target_column : Str
  pub typ : Str

pub record ColumnProfile (F : Type 0) : Type 0 where
  pub name : Str
  pub data_type : Str
  pub nullable : Bool
  pub total_rows : ℤ
  pub null_count : ℤ
  pub null_percentage : F
  pub distinct_count : ℤ
  pub distinct_percentage : F
  pub empty_count : ℤ
  pub whitespace_count : ℤ
  pub zero_count : ℤ
  pub min : Option Str
  pub max : Option Str
  pub avg : Option F
  pub sum : Option F
  pub variance : Option F
  pub skewness : Option F
  pub kurtosis : Option F
  pub std_dev : Option F
  pub median : Option F
  pub p50 : Option F
  pub p75 : Option F
  pub p90 : Option F
  pub p95 : Option F
  pub p99 : Option F
  pub min_length : Option ℤ
  pub max_length : Option ℤ
  pub avg_length : Option F
  pub future_date_count : ℤ
  pub future_date_percentage : F
  pub date_range_days : Option F
  pub date_distribution : List (DateDistribution F)
  pub top_values : List (ValueCount F)
  pub patterns : List (PatternCount F)
  pub pii : Str
  pub pii_confidence : F
  pub outlier_count : ℤ
  pub outlier_percentage : F
  pub histogram : List (HistogramBin F)
  pub entropy : Option F
  pub normalized_entropy : Option F

pub record QualityCheck (F : Type 0) : Type 0 where
  pub name : Str
  pub passed : Bool
  pub severity : Str
  pub metric : Str
  pub threshold : F
  pub actual : F
  pub details : Str

pub record QualityReport (F : Type 0) : Type 0 where
  pub score : F
  pub checks : List (QualityCheck F)

pub record DriftReport (F : Type 0) : Type 0 where
  pub changed : Bool
  pub score_delta : F
  pub column_changes : List Str

pub record TableProfile (F : Type 0) : Type 0 where
  pub schema : Str
  pub table : Str
  pub total_rows : ℤ
  pub sampled : Bool
  pub sample_size : ℤ
  pub columns : List (ColumnProfile F)
  pub duplicate_row_count : ℤ
  pub duplicate_row_percentage : F
  pub quality : QualityReport F
  pub drift : Option (DriftReport F)
  pub correlations : List (Correlation F)
  pub relationships : List Relationship
  pub created_at : ℕ
