-- ===== src/Quality/Checks.antt =====
-- internal/quality/quality.go: the blocks of the loop in `Evaluate`, one function each.
use data_profiler.Prelude.{
  ℕ, Bool, true, false, not, ◌&&◌, ◌||◌, List, [], ◌∷◌, ◌++◌, Str, lit, if◌then◌else◌, print_ℤ,
}
use data_profiler.Prelude.Int.{pos, sub64, eqb_ℤ, leb_ℤ, ltb_ℤ}
use data_profiler.Prelude.Float.{Float64}
use data_profiler.Domain.{ColumnProfile, ValueCount, QualityCheck, TableProfile}
use data_profiler.Quality.Classify.{
  is_text_column, is_date_time_column, is_numeric_column, is_likely_key, severity,
}
use data_profiler.Quality.Rules.{number, percentage, Thresholds}

module _ (fl : Float64) where
  open fl use {F, of_int, fsub, fle, fmt2}

  -- `checks` and `score` while the loop runs.
  pub record Tally : Type 0 where
    pub checks : List (QualityCheck F)
    pub score : F

  abbrev pub add_check : QualityCheck F → Tally → Tally
  add_check q s = record s { checks = s.checks ++ q ∷ [] }

  abbrev pub deduct_if : Bool → ℕ → Tally → Tally
  deduct_if true points s = record s { score = fsub s.score (number fl points) }
  deduct_if false points s = s

  unfoldable pub completeness : Thresholds fl → ColumnProfile F → Tally → Tally
  completeness t c s =
      let null_pct = percentage fl c.null_count c.total_rows in
      let passed = fle null_pct t.null_threshold in
      deduct_if (not passed) 10 (
        add_check
          (record {
            name = lit "completeness:" ++ c.name;
            passed = passed;
            severity = severity passed (lit "fail");
            metric = lit "null_percentage";
            threshold = t.null_threshold;
            actual = null_pct;
            details =
                lit "null "
                ++ (fmt2 null_pct ++ (lit "% (threshold " ++ (fmt2 t.null_threshold ++ lit "%)")));
          })
          s)

  unfoldable pub uniqueness : ColumnProfile F → Tally → Tally
  uniqueness c s =
      let unique = ltb_ℤ (pos 0) c.total_rows && eqb_ℤ c.distinct_count c.total_rows in
      if is_likely_key c.name
      then deduct_if (not unique) 5 (
          add_check
            (record {
              name = lit "uniqueness:" ++ c.name;
              passed = unique;
              severity = severity unique (lit "fail");
              metric = lit "distinct_percentage";
              threshold = number fl 100;
              actual = c.distinct_percentage;
              details =
                  lit "distinct="
                  ++ (print_ℤ c.distinct_count ++ (lit " rows=" ++ print_ℤ c.total_rows));
            })
            s)
      else s

  unfoldable pub constant : ColumnProfile F → Tally → Tally
  constant c s =
      if ltb_ℤ (pos 0) c.total_rows && leb_ℤ c.distinct_count (pos 1)
      then add_check
          (record {
            name = lit "constant:" ++ c.name;
            passed = false;
            severity = lit "warn";
            metric = lit "distinct_count";
            threshold = number fl 1;
            actual = of_int c.distinct_count;
            details =
                lit "only "
                ++ (print_ℤ c.distinct_count
                    ++ (lit " distinct value(s) across " ++ (print_ℤ c.total_rows ++ lit " rows")));
          })
          s
      else s

  unfoldable pub high_cardinality : Thresholds fl → ColumnProfile F → Tally → Tally
  high_cardinality t c s =
      if ltb_ℤ (pos 0) c.total_rows
        && (fle t.high_cardinality_threshold c.distinct_percentage && not (is_likely_key c.name))
      then add_check
          (record {
            name = lit "high_cardinality:" ++ c.name;
            passed = true;
            severity = lit "info";
            metric = lit "distinct_percentage";
            threshold = t.high_cardinality_threshold;
            actual = c.distinct_percentage;
            details = fmt2 c.distinct_percentage ++ lit "% of rows are distinct";
          })
          s
      else s

  abbrev pub dominant_check : Thresholds fl → Str → List (ValueCount F) → Tally → Tally
  dominant_check t name [] s = s
  dominant_check t name (top ∷ others) s =
      if fle t.dominant_threshold top.percentage
      then add_check
          (record {
            name = lit "dominant_value:" ++ name;
            passed = true;
            severity = lit "info";
            metric = lit "top_value_percentage";
            threshold = t.dominant_threshold;
            actual = top.percentage;
            details = lit "top value represents " ++ (fmt2 top.percentage ++ lit "% of rows");
          })
          s
      else s

  unfoldable pub dominant_value : Thresholds fl → ColumnProfile F → Tally → Tally
  dominant_value t c s = dominant_check t c.name c.top_values s

  -- The severity looks at the count alone, and not at what the rules allow.
  unfoldable pub empty_values : Thresholds fl → ColumnProfile F → Tally → Tally
  empty_values t c s =
      let pct = percentage fl c.empty_count c.total_rows in
      deduct_if (ltb_ℤ (pos 0) c.empty_count && not t.allow_empty) 3 (
        add_check
          (record {
            name = lit "empty:" ++ c.name;
            passed = t.allow_empty || eqb_ℤ c.empty_count (pos 0);
            severity = severity (eqb_ℤ c.empty_count (pos 0)) (lit "warn");
            metric = lit "empty_percentage";
            threshold = number fl 0;
            actual = pct;
            details = lit "empty " ++ (fmt2 pct ++ lit "%");
          })
          s)

  unfoldable pub whitespace_values : Thresholds fl → ColumnProfile F → Tally → Tally
  whitespace_values t c s =
      let pct = percentage fl c.whitespace_count c.total_rows in
      deduct_if (ltb_ℤ (pos 0) c.whitespace_count && not t.allow_whitespace) 2 (
        add_check
          (record {
            name = lit "whitespace:" ++ c.name;
            passed = t.allow_whitespace || eqb_ℤ c.whitespace_count (pos 0);
            severity = severity (eqb_ℤ c.whitespace_count (pos 0)) (lit "warn");
            metric = lit "whitespace_percentage";
            threshold = number fl 0;
            actual = pct;
            details = lit "whitespace-only " ++ (fmt2 pct ++ lit "%");
          })
          s)

  unfoldable pub text_checks : Thresholds fl → ColumnProfile F → Tally → Tally
  text_checks t c s =
      if is_text_column c.data_type then whitespace_values t c (empty_values t c s) else s

  unfoldable pub outliers : ColumnProfile F → Tally → Tally
  outliers c s =
      if is_numeric_column c.data_type && ltb_ℤ (pos 0) c.outlier_count
      then add_check
          (record {
            name = lit "outliers:" ++ c.name;
            passed = true;
            severity = lit "warn";
            metric = lit "outlier_percentage";
            threshold = number fl 0;
            actual = c.outlier_percentage;
            details =
                lit "3-sigma screening found "
                ++ (print_ℤ c.outlier_count
                    ++ (lit " outlier value(s) ("
                        ++ (fmt2 c.outlier_percentage ++ lit "% of non-null values)")));
          })
          s
      else s

  unfoldable pub future_dates : ColumnProfile F → Tally → Tally
  future_dates c s =
      if is_date_time_column c.data_type && ltb_ℤ (pos 0) c.future_date_count
      then deduct_if true 3 (
          add_check
            (record {
              name = lit "future_dates:" ++ c.name;
              passed = false;
              severity = lit "warn";
              metric = lit "future_date_percentage";
              threshold = number fl 0;
              actual = c.future_date_percentage;
              details =
                  print_ℤ c.future_date_count
                  ++ (lit " future date value(s) ("
                      ++ (fmt2 c.future_date_percentage ++ lit "% of non-null values)"));
            })
            s)
      else s

  unfoldable pub zero_values : ColumnProfile F → Tally → Tally
  zero_values c s =
      let pct = percentage fl c.zero_count (sub64 c.total_rows c.null_count) in
      if is_numeric_column c.data_type && ltb_ℤ (pos 0) c.zero_count
      then add_check
          (record {
            name = lit "zero_values:" ++ c.name;
            passed = true;
            severity = lit "info";
            metric = lit "zero_percentage";
            threshold = number fl 0;
            actual = pct;
            details =
                lit "zero values "
                ++ (print_ℤ c.zero_count
                    ++ (lit " (" ++ (fmt2 pct ++ lit "% of non-null values)")));
          })
          s
      else s

  unfoldable pub duplicate_rows : TableProfile F → Tally → Tally
  duplicate_rows p s =
      if ltb_ℤ (pos 0) p.duplicate_row_count
      then deduct_if true 5 (
          add_check
            (record {
              name = lit "duplicate_rows";
              passed = false;
              severity = lit "warn";
              metric = lit "duplicate_row_percentage";
              threshold = number fl 0;
              actual = p.duplicate_row_percentage;
              details =
                  print_ℤ p.duplicate_row_count
                  ++ (lit " duplicate row(s) (" ++ (fmt2 p.duplicate_row_percentage ++ lit "%)"));
            })
            s)
      else s
