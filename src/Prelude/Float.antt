-- ===== src/Prelude/Float.antt =====
-- float64 as an interface: the type, the operations that the program applies, and the facts of
-- IEEE 754 double precision that the proofs use.
use data_profiler.Prelude.Int.{ℤ, pos, negsuc, ◌≤ℤ◌, ◌-ℤ◌, ltb_ℤ, leb_ℤ}
use data_profiler.Prelude.Text.{Str}
use Prim.Native.Nat.{ℕ, ◌^◌, ◌*◌, ◌≤◌, ◌<◌}
use mathlib.Core.Path.{◌≡◌}
use mathlib.Core.Bool.{Bool, true, false}
use mathlib.Core.Option.{Option}

pub record Float64 : Type 1 where
  pub F : Type 0
  -- float64(n); Go's `+ - * /`, `<`, `<=`, `==`; math.IsNaN, math.Log2
  pub of_int : ℤ → F
  pub fadd : F → F → F
  pub fsub : F → F → F
  pub fmul : F → F → F
  pub fdiv : F → F → F
  pub flt : F → F → Bool
  pub fle : F → F → Bool
  pub feq : F → F → Bool
  pub is_nan : F → Bool
  pub log2 : F → F
  -- the verb %.2f of fmt, strconv.FormatFloat(x, 'f', 6, 64) and strconv.ParseFloat
  pub fmt2 : F → Str
  pub fmt6 : F → Str
  pub parse_float : Str → Option F

-- Below 2^53 in magnitude every integer is a float64, and the difference of two is exact.
abbrev pub Small : ℤ → Type 0
Small z = (negsuc (2 ^ 53) ≤ℤ z) × (z ≤ℤ pos (2 ^ 53))

-- What IEEE 754 says of the operations, as far as the proofs rely on it: differences and orders of
-- small integers are exact, and a quotient is rounded monotonically, so that quotients of numbers up
-- to 2^25, which differ by more than the rounding, stay apart.
pub record Ieee (fl : Float64) : Type 0 where
  pub exact_sub :
      (a b : ℤ)
      → Small a
      → Small b
      → Small (a -ℤ b)
      → fl.fsub (fl.of_int a) (fl.of_int b) ≡ fl.of_int (a -ℤ b)
  pub exact_lt : (a b : ℤ) → Small a → Small b → fl.flt (fl.of_int a) (fl.of_int b) ≡ ltb_ℤ a b
  pub exact_le : (a b : ℤ) → Small a → Small b → fl.fle (fl.of_int a) (fl.of_int b) ≡ leb_ℤ a b
  pub quotient_le :
      (a b c d : ℕ)
      → a ≤ 2 ^ 53
      → 0 < b
      → b ≤ 2 ^ 53
      → c ≤ 2 ^ 53
      → 0 < d
      → d ≤ 2 ^ 53
      → a * d ≤ c * b
      → fl.fle
          (fl.fdiv (fl.of_int (pos a)) (fl.of_int (pos b)))
          (fl.fdiv (fl.of_int (pos c)) (fl.of_int (pos d)))
        ≡ true
  pub quotient_lt :
      (a b c d : ℕ)
      → a ≤ 2 ^ 25
      → 0 < b
      → b ≤ 2 ^ 25
      → c ≤ 2 ^ 25
      → 0 < d
      → d ≤ 2 ^ 25
      → c * b < a * d
      → fl.fle
          (fl.fdiv (fl.of_int (pos a)) (fl.of_int (pos b)))
          (fl.fdiv (fl.of_int (pos c)) (fl.of_int (pos d)))
        ≡ false
