-- ===== src/Pii/Luhn.antt =====
-- What the Luhn check detects.
use data_profiler.Prelude.{
  ℕ, suc, ◌+◌, ◌%◌, ◌≡◌, ◌≢◌, ◌⊎◌, refl, ap, ◌∙◌, Bool, true, false, not, [], ◌∷◌, ◌++◌, Str, arith,
  length, length-append, if◌then◌else◌,
}
use data_profiler.Pii.Patterns.{is_digit}
use data_profiler.Pii.Checks.{digit_of, double_digit, luhn_sum, luhn}
use mathlib.Core.List.{reverse, reverse-append, append_assoc}

-- What a byte adds to the sum.
abbrev weight : Bool → ℕ → ℕ
weight alternate c = if alternate then double_digit (digit_of c) else digit_of c

-- The flag after a text.
abbrev flips : Bool → Str → Bool
flips b [] = b
flips b (c ∷ s) = flips (not b) s

luhn_sum-add : (b : Bool) (n k : ℕ) (s : Str) → luhn_sum b (n + k) s ≡ n + luhn_sum b k s
unfolding luhn_sum
luhn_sum-add b n k [] = refl
luhn_sum-add b n k (c ∷ s) =
    let w : ℕ = if b then double_digit (digit_of c) else digit_of c in
    ap (λ m. luhn_sum (not b) m s) (omega arith) ∙ luhn_sum-add (not b) n (k + w) s

luhn_sum-append :
    (b : Bool) (n : ℕ) (s t : Str) → luhn_sum b n (s ++ t) ≡ luhn_sum (flips b s) (luhn_sum b n s) t
unfolding luhn_sum
luhn_sum-append b n [] t = refl
luhn_sum-append b n (c ∷ s) t = luhn_sum-append (not b) _ s t

-- Two digits that weigh the same modulo 10 are the same digit.
weight-inj :
    (b : Bool) (c d : ℕ)
    → is_digit c ≡ true
    → is_digit d ≡ true
    → weight b c % 10 ≡ weight b d % 10
    → c ≡ d
weight-inj true c d hc hd e = ground arith
weight-inj false c d hc hd e = ground arith

-- The two bytes of a transposition: they weigh the same in both orders only if they are equal, or
-- are 0 and 9.
swap_weight :
    (b : Bool) (c d : ℕ)
    → is_digit c ≡ true
    → is_digit d ≡ true
    → (weight b d + weight (not b) c) % 10 ≡ (weight b c + weight (not b) d) % 10
    → (c ≡ d) ⊎ ((c ≡ b'0') × (d ≡ b'9') ⊎ (c ≡ b'9') × (d ≡ b'0'))
swap_weight true c d hc hd e = ground arith
swap_weight false c d hc hd e = ground arith

-- A text with a part `m` in it: the bytes after `m` fix the flag and the sum with which it is read.
module _ (xs ys : Str) where
  flag : Bool
  flag = flips false (reverse ys)

  luhn_sum-middle :
      (m : Str)
      → luhn_sum false 0 (reverse (xs ++ (m ++ ys)))
        ≡ luhn_sum flag (luhn_sum false 0 (reverse ys)) (reverse m ++ reverse xs)
  unfolding flag
  luhn_sum-middle m =
      rw (reverse-append, reverse-append, append_assoc)
        (luhn_sum-append false 0 (reverse ys) (reverse m ++ reverse xs))

  -- The sum of all but one byte, and of all but two.
  others : Bool → ℕ
  others b = luhn_sum b (luhn_sum false 0 (reverse ys)) (reverse xs)

  luhn_sum-one :
      (c : ℕ) → luhn_sum false 0 (reverse (xs ++ c ∷ ys)) ≡ weight flag c + others (not flag)
  unfolding luhn_sum others
  luhn_sum-one c =
      luhn_sum-middle (c ∷ [])
      ∙ ap (λ n. luhn_sum (not flag) n (reverse xs)) (omega arith)
      ∙ luhn_sum-add (not flag) (weight flag c) (luhn_sum false 0 (reverse ys)) (reverse xs)

  luhn_sum-two :
      (c d : ℕ)
      → luhn_sum false 0 (reverse (xs ++ c ∷ d ∷ ys))
        ≡ weight flag d + weight (not flag) c + others (not (not flag))
  unfolding luhn_sum others
  luhn_sum-two c d =
      luhn_sum-middle (c ∷ d ∷ [])
      ∙ ap (λ n. luhn_sum (not (not flag)) n (reverse xs)) (omega arith)
      ∙ luhn_sum-add (not (not flag)) (weight flag d + weight (not flag) c)
          (luhn_sum false 0 (reverse ys)) (reverse xs)

length-swap :
    (xs ys m k : Str) → length m ≡ length k → length (xs ++ (m ++ ys)) ≡ length (xs ++ (k ++ ys))
length-swap [] ys m k e = omega (arith, length-append m ys, length-append k ys)
length-swap (x ∷ xs) ys m k e = ap suc (length-swap xs ys m k e)

-- A number that passes the check fails it when any one digit is replaced by another digit.
pub luhn-one_digit :
    (xs ys : Str) (c d : ℕ)
    → is_digit c ≡ true
    → is_digit d ≡ true
    → c ≢ d
    → luhn (xs ++ c ∷ ys) ≡ true
    → luhn (xs ++ d ∷ ys) ≡ false
unfolding luhn
luhn-one_digit xs ys c d hc hd ne h = ground (
  arith,
  length-swap xs ys (c ∷ []) (d ∷ []),
  luhn_sum-one xs ys c,
  luhn_sum-one xs ys d,
  weight-inj (flag xs ys) c d,
)

-- A number that passes the check fails it when two different adjacent digits are swapped, unless they
-- are 0 and 9.
pub luhn-swapped :
    (xs ys : Str) (c d : ℕ)
    → is_digit c ≡ true
    → is_digit d ≡ true
    → c ≢ d
    → ¬ ((c ≡ b'0') × (d ≡ b'9'))
    → ¬ ((c ≡ b'9') × (d ≡ b'0'))
    → luhn (xs ++ c ∷ d ∷ ys) ≡ true
    → luhn (xs ++ d ∷ c ∷ ys) ≡ false
unfolding luhn
luhn-swapped xs ys c d hc hd ne not09 not90 h = ground (
  arith,
  length-swap xs ys (c ∷ d ∷ []) (d ∷ c ∷ []),
  luhn_sum-two xs ys c d,
  luhn_sum-two xs ys d c,
  swap_weight (flag xs ys) c d,
)
