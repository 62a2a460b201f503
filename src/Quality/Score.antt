-- ===== src/Quality/Score.antt =====
-- The score of a report and the costs of its failed checks.
use data_profiler.Prelude.{
  ℕ, ◌+◌, ◌-◌, ◌*◌, ◌≤◌, ◌^◌, ◌≡◌, refl, ap, ◌∙◌, Bool, true, false, List, [], ◌∷◌, ◌++◌, Str, lit,
  str_eq, arith, All, Bool-cases, inl, inr, length, if◌then◌else◌, Option,
}
use data_profiler.Prelude.Int.{ℤ, pos, sub_ℕ, ◌-ℤ◌, ◌≤ℤ◌, ltb_ℤ}
use data_profiler.Prelude.Float.{Float64, Ieee, Small}
use data_profiler.Domain.{QualityRules, ColumnProfile, ValueCount, QualityCheck, TableProfile}
use data_profiler.Quality.Classify.{is_likely_key}
use data_profiler.Quality.Rules.{number, Thresholds, thresholds}
use data_profiler.Quality.Checks.{
  Tally, add_check, deduct_if, completeness, uniqueness, constant, high_cardinality, dominant_check,
  dominant_value, empty_values, whitespace_values, text_checks, outliers, future_dates, zero_values,
  duplicate_rows,
}
use data_profiler.Quality.{check_column, check_columns, report, evaluate}

-- What a failed check costs, by its metric.
pub weight : Str → ℕ
weight metric =
    if str_eq metric (lit "null_percentage")
    then 10
    else if str_eq metric (lit "distinct_percentage")
    then 5
    else if str_eq metric (lit "empty_percentage")
    then 3
    else if str_eq metric (lit "whitespace_percentage")
    then 2
    else if str_eq metric (lit "future_date_percentage")
    then 3
    else if str_eq metric (lit "duplicate_row_percentage")
    then 5
    else 0

weights :
    (weight (lit "null_percentage") ≡ 10)
    × (weight (lit "distinct_percentage") ≡ 5)
    × (weight (lit "empty_percentage") ≡ 3)
    × (weight (lit "whitespace_percentage") ≡ 2)
    × (weight (lit "future_date_percentage") ≡ 3)
    × (weight (lit "duplicate_row_percentage") ≡ 5)
    × (weight (lit "distinct_count") ≡ 0)
unfolding weight lit str_eq
weights = (refl, refl, refl, refl, refl, refl, refl)

module _ {F : Type 0} where
  abbrev pub cost : QualityCheck F → ℕ
  cost q = if q.passed then 0 else weight q.metric

  abbrev pub total_cost : List (QualityCheck F) → ℕ
  total_cost [] = 0
  total_cost (q ∷ qs) = cost q + total_cost qs

  total_cost-append :
      (qs rs : List (QualityCheck F)) → total_cost (qs ++ rs) ≡ total_cost qs + total_cost rs
  total_cost-append [] rs = omega arith
  total_cost-append (q ∷ qs) rs = omega (arith, total_cost-append qs rs)

Small-difference : (n : ℕ) → n ≤ 2 ^ 53 → Small (sub_ℕ 100 n)
Small-difference n h = ground arith

sub_step : (n k : ℕ) → sub_ℕ 100 n -ℤ pos k ≡ sub_ℕ 100 (n + k)
unfolding ◌-ℤ◌
sub_step n k = ground arith

clamp :
    {F : Type 0} (f : ℤ → F) (n : ℕ)
    → (if ltb_ℤ (sub_ℕ 100 n) (pos 0) then f (pos 0) else f (sub_ℕ 100 n)) ≡ f (pos (100 - n))
clamp f n = ground arith

module _ (fl : Float64) (ieee : Ieee fl) where
  open fl use {F, of_int, fsub, flt}

  -- The score so far is 100 less the cost of the checks so far, which is at most `n`.
  record Explained (n : ℕ) (s : Tally fl) : Type 0 where
    exact : s.score ≡ of_int (sub_ℕ 100 (total_cost s.checks))
    bounded : total_cost s.checks ≤ n

  Explained-more : {n m : ℕ} {s : Tally fl} → n ≤ m → Explained n s → Explained m s
  Explained-more le h = record { exact = h.exact; bounded = omega arith }

  module _ {n : ℕ} {s : Tally fl} where
    -- A check that cost nothing was added, and one that cost what was deducted.
    Explained-add :
        (q : QualityCheck F) → cost q ≡ 0 → Explained n s → Explained n (add_check fl q s)
    Explained-add q free h =
        let same : total_cost (s.checks ++ q ∷ []) ≡ total_cost s.checks =
          total_cost-append s.checks (q ∷ []) ∙ omega arith in
        record { exact = rw same h.exact; bounded = rw same h.bounded }

    Explained-deduct :
        (q : QualityCheck F) (b : Bool) (k : ℕ)
        → n + k ≤ 2 ^ 53
        → cost q ≡ (if b then k else 0)
        → Explained n s
        → Explained (n + k) (deduct_if fl b k (add_check fl q s))
    Explained-deduct q true k fits price h =
        let more : total_cost (s.checks ++ q ∷ []) ≡ total_cost s.checks + k =
          total_cost-append s.checks (q ∷ []) ∙ omega arith in
        let m = total_cost s.checks in
        record {
          exact =
              rw (more, h.exact)
                (ieee.exact_sub (sub_ℕ 100 m) (pos k)
                    (Small-difference m (omega (arith, h.bounded))) (omega arith)
                    (rw (sub_step m k) (Small-difference (m + k) (omega (arith, h.bounded))))
                  ∙ ap of_int (sub_step m k));
          bounded = rw more (omega (arith, h.bounded));
        }
    Explained-deduct q false k fits price h = Explained-more (omega arith) (Explained-add q price h)

    Explained-if :
        (b : Bool) (x : Tally fl) → Explained n x → Explained n s → Explained n (if b then x else s)
    Explained-if true x hx h = hx
    Explained-if false x hx h = h

  -- The counts that are compared with 0 are not negative.
  pub record HasCounts (c : ColumnProfile F) : Type 0 where
    pub empty_count : pos 0 ≤ℤ c.empty_count
    pub whitespace_count : pos 0 ≤ℤ c.whitespace_count

  module _ (t : Thresholds fl) (c : ColumnProfile F) {n : ℕ} {s : Tally fl} where
    completeness-Explained :
        n + 10 ≤ 2 ^ 53 → Explained n s → Explained (n + 10) (completeness fl t c s)
    unfolding completeness
    completeness-Explained fits h = Explained-deduct _ _ 10 fits (ground (arith, weights)) h

    uniqueness-Explained : n + 5 ≤ 2 ^ 53 → Explained n s → Explained (n + 5) (uniqueness fl c s)
    unfolding uniqueness
    uniqueness-Explained fits h = elim (Bool-cases (is_likely_key c.name)) [
      | inl key ↦ rw key (Explained-deduct _ _ 5 fits (ground (arith, weights)) h)
      | inr other ↦ rw other (Explained-more (omega arith) h)
    ]

    constant-Explained : Explained n s → Explained n (constant fl c s)
    unfolding constant
    constant-Explained h = Explained-if _ _ (Explained-add _ (ground (arith, weights)) h) h

    high_cardinality-Explained : Explained n s → Explained n (high_cardinality fl t c s)
    unfolding high_cardinality
    high_cardinality-Explained h = Explained-if _ _ (Explained-add _ refl h) h

    dominant_check-Explained :
        (values : List (ValueCount F))
        → Explained n s
        → Explained n (dominant_check fl t c.name values s)
    dominant_check-Explained [] h = h
    dominant_check-Explained (top ∷ others) h = Explained-if _ _ (Explained-add _ refl h) h

    dominant_value-Explained : Explained n s → Explained n (dominant_value fl t c s)
    unfolding dominant_value
    dominant_value-Explained = dominant_check-Explained c.top_values

    empty_values-Explained :
        HasCounts c → n + 3 ≤ 2 ^ 53 → Explained n s → Explained (n + 3) (empty_values fl t c s)
    unfolding empty_values
    empty_values-Explained counts fits h =
        Explained-deduct _ _ 3 fits (ground (arith, weights, counts.empty_count)) h

    whitespace_values-Explained :
        HasCounts c
        → n + 2 ≤ 2 ^ 53
        → Explained n s
        → Explained (n + 2) (whitespace_values fl t c s)
    unfolding whitespace_values
    whitespace_values-Explained counts fits h =
        Explained-deduct _ _ 2 fits (ground (arith, weights, counts.whitespace_count)) h

    outliers-Explained : Explained n s → Explained n (outliers fl c s)
    unfolding outliers
    outliers-Explained h = Explained-if _ _ (Explained-add _ refl h) h

    zero_values-Explained : Explained n s → Explained n (zero_values fl c s)
    unfolding zero_values
    zero_values-Explained h = Explained-if _ _ (Explained-add _ refl h) h

    future_dates-Explained :
        n + 3 ≤ 2 ^ 53 → Explained n s → Explained (n + 3) (future_dates fl c s)
    unfolding future_dates
    future_dates-Explained fits h =
        Explained-if {s = s} _ _ (Explained-deduct _ true 3 fits (ground (arith, weights)) h)
          (Explained-more (omega arith) h)

  module _ (t : Thresholds fl) (c : ColumnProfile F) where
    text_checks-Explained :
        {n : ℕ} {s : Tally fl}
        → HasCounts c
        → n + 5 ≤ 2 ^ 53
        → Explained n s
        → Explained (n + 5) (text_checks fl t c s)
    unfolding text_checks
    text_checks-Explained counts fits h =
        Explained-if _ _
          (Explained-more (omega arith) (
            whitespace_values-Explained t c counts (omega arith)
              (empty_values-Explained t c counts (omega arith) h)))
          (Explained-more (omega arith) h)

    check_column-Explained :
        {n : ℕ} {s : Tally fl}
        → HasCounts c
        → n + 23 ≤ 2 ^ 53
        → Explained n s
        → Explained (n + 23) (check_column fl t c s)
    unfolding check_column
    check_column-Explained counts fits h = zero_values-Explained t c (
        Explained-more (omega arith) (
          future_dates-Explained t c (omega arith) (
            outliers-Explained t c (
              text_checks-Explained counts (omega arith) (
                dominant_value-Explained t c (
                  high_cardinality-Explained t c (
                    constant-Explained t c (
                      uniqueness-Explained t c (omega arith)
                        (completeness-Explained t c (omega arith) h)))))))))

  check_columns-Explained :
      (t : Thresholds fl) (columns : List (ColumnProfile F)) {n : ℕ} {s : Tally fl}
      → All HasCounts columns
      → n + 23 * length columns ≤ 2 ^ 53
      → Explained n s
      → Explained (n + 23 * length columns) (check_columns fl t columns s)
  unfolding check_columns
  check_columns-Explained t [] counts fits h = Explained-more (omega arith) h
  check_columns-Explained t (c ∷ columns) counts fits h = Explained-more (omega arith) (
      check_columns-Explained t columns counts.1 (omega arith)
        (check_column-Explained t c counts.0 (omega arith) h))

  duplicate_rows-Explained :
      (p : TableProfile F) {n : ℕ} {s : Tally fl}
      → n + 5 ≤ 2 ^ 53
      → Explained n s
      → Explained (n + 5) (duplicate_rows fl p s)
  unfolding duplicate_rows
  duplicate_rows-Explained p {s} fits h =
      Explained-if {s = s} _ _ (Explained-deduct _ true 5 fits (ground (arith, weights)) h)
        (Explained-more (omega arith) h)

  report-score :
      {n : ℕ} (s : Tally fl)
      → n ≤ 2 ^ 53
      → Explained n s
      → (report fl s).score ≡ of_int (pos (100 - total_cost (report fl s).checks))
  unfolding report
  report-score s fits h =
      let order : flt s.score (number fl 0) ≡ ltb_ℤ (sub_ℕ 100 (total_cost s.checks)) (pos 0) =
        ap (λ x. flt x (number fl 0)) h.exact
        ∙ ieee.exact_lt (sub_ℕ 100 (total_cost s.checks)) (pos 0)
            (Small-difference (total_cost s.checks) (omega (arith, h.bounded))) (omega arith) in
      rw (order, h.exact) (clamp of_int (total_cost s.checks))

  -- The score of a report is 100 less the costs of its failed checks, and 0 if those pass 100: a
  -- failed check costs 10 points by a column's nulls, 5 by the uniqueness of a key, 3 by empty values, 2 by blank
  -- ones, 3 by future dates and 5 by duplicate rows, and nothing otherwise. It holds for every profile of up to 2^40
  -- columns whose counts of empty and blank values are not negative.
  pub evaluate-score :
      (p : TableProfile F) (rules : Option (QualityRules F))
      → All HasCounts p.columns
      → length p.columns ≤ 2 ^ 40
      → (evaluate fl p rules).score ≡ of_int (pos (100 - total_cost (evaluate fl p rules).checks))
  unfolding evaluate
  evaluate-score p rules counts fits = report-score _ (omega arith) (
      duplicate_rows-Explained p (omega arith) (
        check_columns-Explained (thresholds fl rules) p.columns {n = 0} counts (omega arith)
          (record { exact = refl; bounded = omega arith })))
