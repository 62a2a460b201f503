-- ===== src/Prelude/Slots.antt =====
-- The places of a list: reads, writes and copies.
use data_profiler.Prelude.Tests.{◌==◌}
use data_profiler.Prelude.Lists.{length, get_elem?, set, replicate, All}
use Prim.Native.Nat.{ℕ, zero, suc, ◌<◌}
use mathlib.Core.Path.{◌≡◌, refl, ap, subst}
use mathlib.Core.Bool.{false}
use mathlib.Core.Option.{none, some}
use mathlib.Core.List.{List, [], ◌∷◌, ◌++◌}
use native.Mathlib.Omega.{arith}

module _ {A : Type 0} where
  pub length-set : (l : List A) (i : ℕ) (v : A) → length (set l i v) ≡ length l
  length-set [] i v = refl
  length-set (x ∷ l) zero v = refl
  length-set (x ∷ l) (suc i) v = ap suc (length-set l i v)

  pub length-replicate : (n : ℕ) (v : A) → length (replicate n v) ≡ n
  length-replicate zero v = refl
  length-replicate (suc n) v = ap suc (length-replicate n v)

  pub get_elem?-replicate : (n i : ℕ) (v : A) → i < n → get_elem? (replicate n v) i ≡ some v
  get_elem?-replicate zero i v h = absurd (omega arith)
  get_elem?-replicate (suc n) zero v h = refl
  get_elem?-replicate (suc n) (suc i) v h = get_elem?-replicate n i v (omega arith)

  pub get_elem?-set : (l : List A) (i : ℕ) (v : A) → i < length l → get_elem? (set l i v) i ≡ some v
  get_elem?-set [] i v h = absurd (omega arith)
  get_elem?-set (x ∷ l) zero v h = refl
  get_elem?-set (x ∷ l) (suc i) v h = get_elem?-set l i v (omega arith)

  pub get_elem?-set_other :
      (l : List A) (i j : ℕ) (v : A) → (i == j) ≡ false → get_elem? (set l i v) j ≡ get_elem? l j
  get_elem?-set_other [] i j v h = refl
  get_elem?-set_other (x ∷ l) zero zero v h = absurd (ground arith)
  get_elem?-set_other (x ∷ l) zero (suc j) v h = refl
  get_elem?-set_other (x ∷ l) (suc i) zero v h = refl
  get_elem?-set_other (x ∷ l) (suc i) (suc j) v h = get_elem?-set_other l i j v (ground arith)

  pub get_elem?-lt : (l : List A) (i : ℕ) (v : A) → get_elem? l i ≡ some v → i < length l
  get_elem?-lt [] i v h = cc h
  get_elem?-lt (x ∷ l) zero v h = omega arith
  get_elem?-lt (x ∷ l) (suc i) v h = omega (arith, get_elem?-lt l i v h)

  pub get_elem?-append :
      (l k : List A) (i : ℕ) (x : A) → get_elem? l i ≡ some x → get_elem? (l ++ k) i ≡ some x
  get_elem?-append [] k i x e = cc e
  get_elem?-append (y ∷ l) k zero x e = e
  get_elem?-append (y ∷ l) k (suc i) x e = get_elem?-append l k i x e

  pub get_elem?-same_length :
      {B : Type 0} (k : List B) (l : List A) (i : ℕ)
      → length l ≡ length k
      → get_elem? k i ≡ none
      → get_elem? l i ≡ none
  get_elem?-same_length [] [] i len h = refl
  get_elem?-same_length [] (x ∷ l) i len h = absurd (omega arith)
  get_elem?-same_length (y ∷ k) [] i len h = refl
  get_elem?-same_length (y ∷ k) (x ∷ l) zero len h = cc h
  get_elem?-same_length (y ∷ k) (x ∷ l) (suc i) len h = get_elem?-same_length k l i (omega arith) h

  -- Lists are equal if they agree at each index.
  pub list_ext : (l k : List A) → ((i : ℕ) → get_elem? l i ≡ get_elem? k i) → l ≡ k
  list_ext [] [] h = refl
  list_ext [] (y ∷ k) h = let e = h zero in cc e
  list_ext (x ∷ l) [] h = let e = h zero in cc e
  list_ext (x ∷ l) (y ∷ k) h =
      let e = h zero in let tails = list_ext l k (λ i. h (suc i)) in cc (e, tails)

module _ {A : Type 0} (P : A → Type 0) where
  pub All-at : (l : List A) (i : ℕ) (x : A) → All P l → get_elem? l i ≡ some x → P x
  All-at [] i x a e = cc e
  All-at (y ∷ l) zero x a e = let same : y ≡ x = cc e in subst P same a.0
  All-at (y ∷ l) (suc i) x a e = All-at l i x a.1 e

  pub All-set : (l : List A) (i : ℕ) (x : A) → All P l → P x → All P (set l i x)
  All-set [] i x a p = tt
  All-set (y ∷ l) zero x a p = (p, a.1)
  All-set (y ∷ l) (suc i) x a p = (a.0, All-set l i x a.1 p)

  pub All-replicate : (n : ℕ) (x : A) → P x → All P (replicate n x)
  All-replicate zero x p = tt
  All-replicate (suc n) x p = (p, All-replicate n x p)
