-- ===== src/Quality/Tests.antt =====
-- Runs of `Evaluate` and instances of its theorems.
use data_profiler.Prelude.{◌≡◌, ◌-◌, none, arith}
use data_profiler.Prelude.Rational.{fraction, fraction-Ieee}
use data_profiler.Samples.{whole, users}
use data_profiler.Quality.Score.{total_cost, evaluate-score}
use data_profiler.Quality.{evaluate}

evaluate-score_example :
    (evaluate fraction users none).score
    ≡ whole (100 - total_cost (evaluate fraction users none).checks)
evaluate-score_example =
    evaluate-score fraction fraction-Ieee users none
      (
        record { empty_count = ground arith; whitespace_count = ground arith },
        (record { empty_count = ground arith; whitespace_count = ground arith }, tt),
      )
      (omega arith)
