-- ===== src/Quality/Rules.antt =====
-- internal/quality/quality.go: the thresholds that the rules of a request give.
use data_profiler.Prelude.{ℕ, Bool, false, ◌||◌, Option, none, some, if◌then◌else◌}
use data_profiler.Prelude.Int.{ℤ, pos, leb_ℤ}
use data_profiler.Prelude.Float.{Float64}
use data_profiler.Domain.{QualityRules}

module _ (fl : Float64) where
  open fl use {F, of_int, fmul, fdiv, flt}

  abbrev pub number : ℕ → F
  number n = of_int (pos n)

  unfoldable pub percentage : ℤ → ℤ → F
  percentage count total =
      if leb_ℤ total (pos 0)
      then number 0
      else fdiv (fmul (of_int count) (number 100)) (of_int total)

  -- The local variables of `Evaluate` that the rules set.
  pub record Thresholds : Type 0 where
    pub null_threshold : F
    pub dominant_threshold : F
    pub high_cardinality_threshold : F
    pub allow_empty : Bool
    pub allow_whitespace : Bool

  abbrev pub default_thresholds : Thresholds
  default_thresholds = record {
    null_threshold = number 20;
    dominant_threshold = number 80;
    high_cardinality_threshold = number 95;
    allow_empty = false;
    allow_whitespace = false;
  }

  abbrev pub given : {A : Type 0} → Option A → A → A
  given none a = a
  given (some b) a = b

  abbrev pub override : Option (QualityRules F) → Thresholds → Thresholds
  override none t = t
  override (some rules) t = record {
    null_threshold = given rules.null_percentage_threshold t.null_threshold;
    dominant_threshold = given rules.dominant_value_percentage t.dominant_threshold;
    high_cardinality_threshold =
        given rules.high_cardinality_percentage t.high_cardinality_threshold;
    allow_empty = given rules.allow_empty t.allow_empty;
    allow_whitespace = given rules.allow_whitespace t.allow_whitespace;
  }

  -- A threshold outside 0 to 100 falls back to the default.
  abbrev pub in_bounds : F → F → F
  in_bounds t fallback = if flt t (number 0) || flt (number 100) t then fallback else t

  unfoldable pub thresholds : Option (QualityRules F) → Thresholds
  thresholds rules =
      let t = override rules default_thresholds in
      record t {
        null_threshold = in_bounds t.null_threshold default_thresholds.null_threshold;
        dominant_threshold = in_bounds t.dominant_threshold default_thresholds.dominant_threshold;
        high_cardinality_threshold =
            in_bounds t.high_cardinality_threshold default_thresholds.high_cardinality_threshold;
      }
