-- ===== src/Prelude/Rational.antt =====
-- Exact fractions as an instance of `Float64`: with it the witnesses can compute, and the facts that
-- `Ieee` states have a model. A pair is a numerator and a denominator; the denominator 0 is NaN.
use data_profiler.Prelude.Tests.{◌==◌}
use data_profiler.Prelude.Int.{
  ℤ, pos, negsuc, pos_part, neg_part, sub_ℕ, ◌+ℤ◌, ◌-ℤ◌, leb_ℤ, ltb_ℤ, eqb_ℤ,
}
use data_profiler.Prelude.Float.{Float64, Ieee}
use Prim.Native.Nat.{ℕ, suc, ◌+◌, ◌*◌, ◌≤◌, ◌<◌}
use mathlib.Core.Path.{◌≡◌}
use mathlib.Core.Bool.{Bool, true, false, not, ◌&&◌}
use mathlib.Core.Option.{none}
use mathlib.Core.List.{[]}
use native.Mathlib.Omega.{arith}

abbrev scale : ℤ → ℕ → ℤ
scale z n = sub_ℕ (pos_part z * n) (neg_part z * n)

abbrev pub Fraction : Type 0
Fraction = ℤ × ℕ

abbrev is_number : Fraction → Bool
is_number x = not (x.1 == 0)

abbrev compare_by : (ℤ → ℤ → Bool) → Fraction → Fraction → Bool
compare_by test x y = is_number x && is_number y && test (scale x.0 y.1) (scale y.0 x.1)

abbrev times : ℤ → ℤ → ℤ
times a b =
    sub_ℕ (pos_part a * pos_part b + neg_part a * neg_part b)
      (pos_part a * neg_part b + neg_part a * pos_part b)

-- A quotient by a negative number changes both signs.
abbrev divide : Fraction → Fraction → Fraction
divide (a, m) (pos c, n) = (scale a n, m * c)
divide (a, m) (negsuc c, n) = (scale (times a (negsuc 0)) n, m * suc c)

-- `log2`, `fmt2`, `fmt6` and `parse_float` stand for functions whose values no witness reads.
abbrev pub fraction : Float64
fraction = record {
  F = Fraction;
  of_int = λ z. (z, 1);
  fadd = λ x y. (scale x.0 y.1 +ℤ scale y.0 x.1, x.1 * y.1);
  fsub = λ x y. (scale x.0 y.1 -ℤ scale y.0 x.1, x.1 * y.1);
  fmul = λ x y. (times x.0 y.0, x.1 * y.1);
  fdiv = divide;
  flt = compare_by ltb_ℤ;
  fle = compare_by leb_ℤ;
  feq = compare_by eqb_ℤ;
  is_nan = λ x. x.1 == 0;
  log2 = λ x. x;
  fmt2 = λ x. [];
  fmt6 = λ x. [];
  parse_float = λ s. none;
}

scale-one : (z : ℤ) → scale z 1 ≡ z
scale-one (pos n) = ground arith
scale-one (negsuc n) = ground arith

scale_pos : (a d : ℕ) → scale (pos a) d ≡ pos (a * d)
scale_pos a d = ground arith

quotient_order :
    (a b c d : ℕ)
    → 0 < b
    → 0 < d
    → a * d ≤ c * b
    → compare_by leb_ℤ (scale (pos a) 1, 1 * b) (scale (pos c) 1, 1 * d) ≡ true
quotient_order a b c d pb pd le =
    let eb : 1 * b ≡ b = omega arith in
    let ed : 1 * d ≡ d = omega arith in
    rw (scale-one, scale-one, eb, ed, scale_pos, scale_pos) (ground arith)

quotient_strict :
    (a b c d : ℕ)
    → 0 < b
    → 0 < d
    → c * b < a * d
    → compare_by leb_ℤ (scale (pos a) 1, 1 * b) (scale (pos c) 1, 1 * d) ≡ false
quotient_strict a b c d pb pd lt =
    let eb : 1 * b ≡ b = omega arith in
    let ed : 1 * d ≡ d = omega arith in
    rw (scale-one, scale-one, eb, ed, scale_pos, scale_pos) (ground arith)

pub fraction-Ieee : Ieee fraction
fraction-Ieee = record {
  exact_sub = λ a b ha hb hab. rw (scale-one, scale-one);
  exact_lt = λ a b ha hb. rw (scale-one, scale-one);
  exact_le = λ a b ha hb. rw (scale-one, scale-one);
  quotient_le = λ a b c d ha pb hb hc pd hd le. quotient_order a b c d pb pd le;
  quotient_lt = λ a b c d ha pb hb hc pd hd lt. quotient_strict a b c d pb pd lt;
}
