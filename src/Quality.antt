-- ===== src/Quality.antt =====
-- internal/quality/quality.go: `Evaluate`, the checks of a profile and its score.
pub mod Classify
pub mod Rules
pub mod Checks
pub mod Score
mod Tests
use data_profiler.Prelude.{Option, List, [], ◌∷◌, if◌then◌else◌}
use data_profiler.Prelude.Float.{Float64}
use data_profiler.Domain.{QualityRules, ColumnProfile, QualityReport, TableProfile}
use Rules.{number, Thresholds, thresholds}
use Checks.{
  Tally, completeness, uniqueness, constant, high_cardinality, dominant_value, text_checks,
  outliers, future_dates, zero_values, duplicate_rows,
}

module _ (fl : Float64) where
  open fl use {F, flt}

  -- The body of the loop over the columns.
  unfoldable pub check_column : Thresholds fl → ColumnProfile F → Tally fl → Tally fl
  check_column t c s = zero_values fl c (
      future_dates fl c (
        outliers fl c (
          text_checks fl t c (
            dominant_value fl t c (
              high_cardinality fl t c (constant fl c (uniqueness fl c (completeness fl t c s))))))))

  unfoldable pub check_columns : Thresholds fl → List (ColumnProfile F) → Tally fl → Tally fl
  check_columns t [] s = s
  check_columns t (c ∷ columns) s = check_columns t columns (check_column t c s)

  unfoldable pub report : Tally fl → QualityReport F
  report s = record {
    score = if flt s.score (number fl 0) then number fl 0 else s.score;
    checks = s.checks;
  }

  unfoldable pub evaluate : TableProfile F → Option (QualityRules F) → QualityReport F
  evaluate p rules = report (
      duplicate_rows fl p (
        check_columns (thresholds fl rules) p.columns
          (record { checks = []; score = number fl 100 })))
