-- ===== src/Profile/Bins.antt =====
-- The histogram of a column.
use data_profiler.Prelude.{
  length-set, length-replicate, ℕ, ◌+◌, ◌≤◌, ◌≡◌, refl, ◌∙◌, false, ◌&&◌, Option, none, some, List,
  [], ◌∷◌, length, set, replicate, Bool-cases, inl, inr, All, arith,
}
use data_profiler.Prelude.Int.{ℤ, pos, pos_part, leb_ℤ, ltb_ℤ, eqb_ℤ, sub64}
use data_profiler.Prelude.Float.{Float64}
use data_profiler.Domain.{ColumnProfile, HistogramBin}
use data_profiler.Store.{Result, ok, err}
use data_profiler.Profile.Source.{Rows, no_rows, rows}
use data_profiler.Profile.Details.{
  fill_counts, bins, spread, histogram_of, parsed, add_numeric_histogram,
}

module _ (fl : Float64) where
  open fl use {F, feq}

  length-fill_counts :
      (rs : List (Result (ℤ × ℤ))) (counts : List ℤ)
      → length (fill_counts fl rs counts) ≡ length counts
  unfolding fill_counts
  length-fill_counts [] counts = refl
  length-fill_counts (err e ∷ rs) counts = length-fill_counts rs counts
  length-fill_counts (ok (bucket, n) ∷ rs) counts =
      elim (Bool-cases (leb_ℤ (pos 0) bucket && ltb_ℤ bucket (pos 10))) [
        | inl e ↦ rw e (
            length-fill_counts rs (set counts (pos_part bucket) n)
            ∙ length-set counts (pos_part bucket) n)
        | inr e ↦ rw e (length-fill_counts rs counts)
      ]

  -- No bin is empty.
  abbrev pub AllFilled : List (HistogramBin F) → Type 0
  AllFilled = All (λ b. eqb_ℤ b.count (pos 0) ≡ false)

  bins-AllFilled :
      (least most width : F) (non_null : ℤ) (i : ℕ) (counts : List ℤ)
      → (length (bins fl least most width non_null i counts) ≤ length counts)
        × AllFilled (bins fl least most width non_null i counts)
  unfolding bins
  bins-AllFilled least most width non_null i [] = (omega arith, tt)
  bins-AllFilled least most width non_null i (n ∷ counts) =
      let (short, filled) = bins-AllFilled least most width non_null (i + 1) counts in
      elim (Bool-cases (eqb_ℤ n (pos 0))) [
        | inl e ↦ rw e (omega (arith, short), filled)
        | inr e ↦ rw e (omega (arith, short), (e, filled))
      ]

  abbrev Fits : List (HistogramBin F) → Type 0
  Fits bs = (length bs ≤ 10) × AllFilled bs

  spread-Fits :
      (found : Rows (ℤ × ℤ)) (least most : F) (non_null : ℤ)
      → Fits (spread fl found least most non_null)
  spread-Fits (no_rows e) least most non_null = (omega arith, tt)
  spread-Fits (rows rs last) least most non_null =
      let counts = fill_counts fl rs (replicate 10 (pos 0)) in
      let (short, filled) = bins-AllFilled least most _ non_null 0 counts in
      let ten = length-fill_counts rs (replicate 10 (pos 0)) in
      (omega (arith, short, ten, length-replicate 10 (pos 0)), filled)

  histogram_of-Fits :
      (found : Rows (ℤ × ℤ)) (least most : Option F) (non_null : ℤ)
      → leb_ℤ non_null (pos 0) ≡ false
      → Fits (histogram_of fl found least most non_null)
  histogram_of-Fits found none most non_null h = (omega arith, tt)
  histogram_of-Fits found (some least) none non_null h = (omega arith, tt)
  histogram_of-Fits found (some least) (some most) non_null h = elim (Bool-cases (feq least most)) [
    | inl e ↦ rw e (omega arith, (ground arith, tt))
    | inr e ↦ rw e (spread-Fits found least most non_null)
  ]

  -- A column without a histogram gets one of at most ten bins, none of them empty, whatever the database answers.
  pub add_numeric_histogram-AllFilled :
      (found : Rows (ℤ × ℤ)) (total : ℤ) (p : ColumnProfile F)
      → p.histogram ≡ []
      → (length (add_numeric_histogram fl found total p).histogram ≤ 10)
        × AllFilled (add_numeric_histogram fl found total p).histogram
  unfolding add_numeric_histogram
  add_numeric_histogram-AllFilled found total p blank =
      elim (Bool-cases (leb_ℤ (sub64 total p.null_count) (pos 0))) [
        | inl e ↦ rw (e, blank) (omega arith, tt)
        | inr e ↦ rw e (
            histogram_of-Fits found (parsed fl p.min) (parsed fl p.max) (sub64 total p.null_count)
              e)
      ]
