-- ===== src/Prelude/Show.antt =====
-- The verb %d of fmt, and strconv.Itoa.
use data_profiler.Prelude.Tests.{ltb, leb, ◌==◌, if◌then◌else◌, Bool-cases}
use data_profiler.Prelude.Int.{ℤ, pos, negsuc}
use data_profiler.Prelude.Text.{Str}
use data_profiler.Prelude.Parse.{digits_value, atoi}
use Prim.Native.Nat.{ℕ, zero, suc, ◌+◌, ◌/◌, ◌%◌, ◌*◌, ◌<◌, ◌≤◌, ◌^◌}
use mathlib.Core.Path.{◌≡◌, refl, ap, ◌∙◌}
use mathlib.Core.Logic.{inl, inr}
use mathlib.Core.Bool.{true, false, ◌&&◌}
use mathlib.Core.Option.{some}
use native.Mathlib.Omega.{arith}
use mathlib.Core.List.{[], ◌∷◌}

-- The digits of `n` in front of `acc`; fuel above `n` is more than enough.
show_from : ℕ → ℕ → Str → Str
show_from zero n acc = acc
show_from (suc fuel) n acc =
    let here : Str = (b'0' + n % 10) ∷ acc in
    let rest = show_from fuel (n / 10) here in if ltb n 10 then here else rest

unfoldable pub print_ℕ : ℕ → Str
unfolding show_from
print_ℕ n = show_from (suc n) n []

unfoldable pub print_ℤ : ℤ → Str
unfolding print_ℕ
print_ℤ (pos n) = print_ℕ n
print_ℤ (negsuc n) = b'-' ∷ print_ℕ (suc n)

digits_value-digit :
    (v d : ℕ) (acc : Str)
    → d < 10
    → digits_value v ((b'0' + d) ∷ acc) ≡ digits_value (v * 10 + d) acc
unfolding digits_value
digits_value-digit v d acc h =
    let from_zero : leb b'0' (b'0' + d) ≡ true = ground arith in
    let to_nine : leb (b'0' + d) b'9' ≡ true = ground arith in
    rw (from_zero, to_nine) (ap (λ k. digits_value k acc) (omega arith))

digits-show_from :
    (fuel n : ℕ) (acc : Str) → n < fuel → digits_value 0 (show_from fuel n acc) ≡ digits_value n acc
unfolding show_from
digits-show_from zero n acc h = absurd (omega arith)
digits-show_from (suc fuel) n acc h =
    let here : Str = (b'0' + n % 10) ∷ acc in
    elim (Bool-cases (ltb n 10)) [
      | inl small ↦
          let few : n < 10 = ground arith in
          rw small (
            digits_value-digit 0 (n % 10) acc (omega arith)
            ∙ ap (λ k. digits_value k acc) (omega arith))
      | inr big ↦
          let many : 10 ≤ n = ground arith in
          rw big (
            digits-show_from fuel (n / 10) here (omega arith)
            ∙ digits_value-digit (n / 10) (n % 10) acc (omega arith)
            ∙ ap (λ k. digits_value k acc) (omega arith))
    ]

digits_value-first :
    (c : ℕ) (s : Str) (n : ℕ) → digits_value 0 (c ∷ s) ≡ some n → (b'0' ≤ c) × (c ≤ b'9')
unfolding digits_value
digits_value-first c s n h = elim (Bool-cases (leb b'0' c && leb c b'9')) [
  | inl e ↦ (ground arith, ground arith)
  | inr e ↦ let bad = rw e at h in cc bad
]

no_digits : (n : ℕ) → digits_value 0 [] ≡ some n → 0 ≡ n
unfolding digits_value
no_digits n h = cc h

atoi-digits :
    (s : Str) (n : ℕ) → digits_value 0 s ≡ some n → 1 ≤ n → n < 2 ^ 63 → atoi s ≡ some (pos n)
unfolding atoi
atoi-digits [] n h above fits = absurd (omega (arith, no_digits n h))
atoi-digits (c ∷ s) n h above fits =
    let (low, high) = digits_value-first c s n h in
    let minus : (c == b'-') ≡ false = ground arith in
    let plus : (c == b'+') ≡ false = ground arith in
    let in_range : leb n 9223372036854775807 ≡ true = ground arith in
    rw (minus, plus, h) (rw in_range refl)

-- What %d prints of a positive int64, strconv.Atoi reads back.
pub atoi-print_ℕ : (n : ℕ) → 1 ≤ n → n < 2 ^ 63 → atoi (print_ℕ n) ≡ some (pos n)
unfolding print_ℕ digits_value
atoi-print_ℕ n above fits =
    atoi-digits (show_from (suc n) n []) n (digits-show_from (suc n) n [] (omega arith)) above fits
