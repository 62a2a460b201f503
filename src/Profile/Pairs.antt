-- ===== src/Profile/Pairs.antt =====
-- The correlations of a profile.
use data_profiler.Prelude.{
  ℕ, zero, suc, ◌+◌, ◌≤◌, ◌≡◌, refl, ap, ◌∙◌, Bool, false, ◌||◌, Option, none, some, List, [], ◌∷◌,
  map, length, ltb, Bool-cases, inl, inr, All, All-append, length-append, arith,
}
use data_profiler.Prelude.Float.{Float64}
use data_profiler.Domain.{Correlation}
use data_profiler.Store.{Result, ok, err}
use data_profiler.Dialect.{Dialect}
use data_profiler.Dialect.Query.{Query}
use data_profiler.Profile.Source.{Source}
use data_profiler.Profile.Column.{ColumnMeta}
use data_profiler.Profile.Correlations.{
  numeric_columns, pairs, correlation_of, correlate_pair, correlate, add_numeric_correlations,
}

-- The number of pairs of `n` things.
abbrev triangle : ℕ → ℕ
triangle zero = zero
triangle (suc n) = n + triangle n

triangle_mono : (n m : ℕ) → n ≤ m → triangle n ≤ triangle m
triangle_mono zero m h = omega arith
triangle_mono (suc n) zero h = absurd (omega arith)
triangle_mono (suc n) (suc m) h = omega (arith, triangle_mono n m (omega arith))

length-map : {A B : Type 0} (f : A → B) (l : List A) → length (map f l) ≡ length l
length-map f [] = refl
length-map f (x ∷ l) = ap suc (length-map f l)

length-pairs : (cs : List ColumnMeta) → length (pairs cs) ≡ triangle (length cs)
unfolding pairs
length-pairs [] = refl
length-pairs (c ∷ cs) =
    let inner = length-map {B = ColumnMeta × ColumnMeta} (λ d. (c, d)) cs in
    let ih = length-pairs cs in
    length-append (map (λ d. (c, d)) cs) (pairs cs) ∙ omega (arith, inner, ih)

module _ (fl : Float64) (src : Source fl.F) (d : Dialect) (table : Query) where
  open fl use {F, is_nan}

  abbrev pub IsNumber : Correlation F → Type 0
  IsNumber c = is_nan c.coefficient ≡ false

  -- At most one correlation for a pair, and no NaN.
  correlation_of-bounds :
      (p : ColumnMeta × ColumnMeta) (r : Result (Option F))
      → (length (correlation_of fl src d table p r) ≤ 1)
        × All IsNumber (correlation_of fl src d table p r)
  correlation_of-bounds (a, b) (err e) = (omega arith, tt)
  correlation_of-bounds (a, b) (ok none) = (omega arith, tt)
  correlation_of-bounds (a, b) (ok (some x)) = elim (Bool-cases (is_nan x)) [
    | inl h ↦ rw h (omega arith, tt)
    | inr h ↦ rw h (omega arith, (h, tt))
  ]

  correlate_pair-bounds :
      (p : ColumnMeta × ColumnMeta)
      → (length (correlate_pair fl src d table p) ≤ 1)
        × All IsNumber (correlate_pair fl src d table p)
  correlate_pair-bounds (a, b) = correlation_of-bounds (a, b) _

  correlate-bounds :
      (done : ℕ → Bool) (n : ℕ) (ps : List (ColumnMeta × ColumnMeta))
      → (length (correlate fl src d table done n ps) ≤ length ps)
        × All IsNumber (correlate fl src d table done n ps)
  unfolding correlate
  correlate-bounds done n [] = (omega arith, tt)
  correlate-bounds done n ((a, b) ∷ ps) =
      let (short, sound) = correlate-bounds done (suc n) ps in
      let own = correlate_pair fl src d table (a, b) in
      let rest = correlate fl src d table done (suc n) ps in
      let (one, number) = correlate_pair-bounds (a, b) in
      elim (Bool-cases (done n)) [
        | inl h ↦ rw h (omega arith, tt)
        | inr h ↦ rw h (
          omega (arith, length-append own rest, short, one),
          All-append IsNumber own rest number sound,
        )
      ]

  -- A profile has at most 66 correlations, however many columns the table has, and none of them is NaN.
  add_numeric_correlations-bounds :
      (done : ℕ → Bool) (cols : List ColumnMeta)
      → (length (add_numeric_correlations fl src d table done cols) ≤ 66)
        × All IsNumber (add_numeric_correlations fl src d table done cols)
  unfolding add_numeric_correlations
  add_numeric_correlations-bounds done cols =
      let numeric = numeric_columns cols in
      let (short, sound) = correlate-bounds done 0 (pairs numeric) in
      elim (Bool-cases (ltb (length numeric) 2 || ltb 12 (length numeric))) [
        | inl h ↦ rw h (omega arith, tt)
        | inr h ↦
            let few : length numeric ≤ 12 = ground arith in
            rw h (
              omega (arith, length-pairs numeric, triangle_mono (length numeric) 12 few, short),
              sound,
            )
      ]
