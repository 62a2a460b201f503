-- ===== src/Pii/Evidence.antt =====
-- How the counts of the sampled values become a confidence.
use data_profiler.Prelude.{
  ℕ, ◌+◌, ◌*◌, ◌≤◌, ◌<◌, ◌^◌, ◌≡◌, ◌∙◌, true, some, List, [], ◌∷◌, Str, str_eq, arith, All,
  Bool-cases, inl, inr, if◌then◌else◌, trim_space,
}
use data_profiler.Prelude.Int.{pos, pos_part, add64_pos}
use data_profiler.Prelude.Float.{Float64, Ieee}
use data_profiler.Domain.{ValueCount}
use data_profiler.Pii.Checks.{matches_label}
use data_profiler.Pii.{
  HeaderRule, normalize, header_label, hundredths, tally, value_match_ratio, header_confidence,
  detect_profile,
}

module _ {F : Type 0} where
  -- How many rows the values that are not blank stand for, and those that match a label.
  abbrev pub rows_checked : List (ValueCount F) → ℕ
  rows_checked [] = 0
  rows_checked (v ∷ values) =
      (if str_eq (trim_space v.value) [] then 0 else pos_part v.count) + rows_checked values

  abbrev pub rows_matched : Str → List (ValueCount F) → ℕ
  rows_matched label [] = 0
  rows_matched label (v ∷ values) =
      (if str_eq (trim_space v.value) []
        then 0
        else if matches_label label (trim_space v.value)
        then pos_part v.count
        else 0)
      + rows_matched label values

  abbrev pub HasCounts : List (ValueCount F) → Type 0
  HasCounts = All (λ v. v.count ≡ pos (pos_part v.count))

module _ (fl : Float64) where
  open fl use {F, of_int, fdiv, fle}

  tally_exact :
      (label : Str) (values : List (ValueCount F)) (c m : ℕ)
      → HasCounts values
      → c + rows_checked values ≤ 2 ^ 53
      → m + rows_matched label values ≤ 2 ^ 53
      → tally fl label values (pos c) (pos m)
        ≡ (pos (c + rows_checked values), pos (m + rows_matched label values))
  unfolding tally
  tally_exact label [] c m h bc bm = ground arith
  tally_exact label (v ∷ values) c m h bc bm = elim (Bool-cases (str_eq (trim_space v.value) [])) [
    | inl blank ↦
        rw blank (tally_exact label values c m h.1 (ground arith) (ground arith) ∙ ground arith)
    | inr text ↦ elim (Bool-cases (matches_label label (trim_space v.value))) [
      | inl hit ↦
          let n = pos_part v.count in
          rw (text, hit, h.0, add64_pos c n (ground arith), add64_pos m n (ground arith))
            (tally_exact label values (c + n) (m + n) h.1 (ground arith) (ground arith)
              ∙ ground arith)
      | inr miss ↦
          let n = pos_part v.count in
          rw (text, miss, h.0, add64_pos c n (ground arith))
            (tally_exact label values (c + n) m h.1 (ground arith) (ground arith) ∙ ground arith)
    ]
  ]

  matched-le-checked :
      (label : Str) (values : List (ValueCount F)) → rows_matched label values ≤ rows_checked values
  matched-le-checked label [] = omega arith
  matched-le-checked label (v ∷ values) = ground (arith, matched-le-checked label values)

  -- The ratio is the quotient of the exact counts.
  pub value_match_ratio_exact :
      (label : Str) (values : List (ValueCount F))
      → HasCounts values
      → 0 < rows_checked values
      → rows_checked values ≤ 2 ^ 53
      → value_match_ratio fl label values
        ≡ fdiv (of_int (pos (rows_matched label values))) (of_int (pos (rows_checked values)))
  unfolding value_match_ratio
  value_match_ratio_exact label values counts some_rows fits =
      let sums : tally fl label values (pos 0) (pos 0)
          ≡ (pos (rows_checked values), pos (rows_matched label values)) =
        tally_exact label values 0 0 counts (omega arith)
          (omega (arith, matched-le-checked label values))
        ∙ ground arith in
      rw sums (ground arith)

  -- A column whose header hits a rule, and of whose sampled rows that are not blank at least 80 percent
  -- match the label of the rule, is reported with that label and confidence 0.95; if the counts are not negative
  -- and no sum of them passes 2^53.
  pub detect_profile-strong_evidence :
      (ieee : Ieee fl) (order : List HeaderRule) (column data_type label : Str)
      (values : List (ValueCount F))
      → header_label (normalize column) order ≡ some label
      → HasCounts values
      → 0 < rows_checked values
      → rows_checked values ≤ 2 ^ 53
      → 80 * rows_checked values ≤ 100 * rows_matched label values
      → detect_profile fl order column data_type values
        ≡ record { label = label; confidence = hundredths fl 95 }
  unfolding detect_profile header_confidence
  detect_profile-strong_evidence ieee order column data_type label values hit counts some_rows fits
        most =
      let high : fle (hundredths fl 80) (value_match_ratio fl label values) ≡ true =
        rw (value_match_ratio_exact label values counts some_rows fits) (
          ieee.quotient_le 80 100 (rows_matched label values) (rows_checked values) (omega arith)
            (omega arith) (omega arith) (omega (arith, matched-le-checked label values)) some_rows
            fits (omega arith)) in
      rw (hit, high)
