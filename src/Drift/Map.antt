-- ===== src/Drift/Map.antt =====
-- Go's map with string keys as an association list with one entry for a key.
use data_profiler.Prelude.{
  ◌≡◌, refl, sym, ap, subst, true, Option, none, some, List, [], ◌∷◌, Str, str_eq, str_eq_iff,
  arith, Bool-cases, inl, inr, if◌then◌else◌,
}
use mathlib.Core.List.{Memᴰ}

module _ {ℓ} {V : Type ℓ} where
  unfoldable pub lookup : Str → List (Str × V) → Option V
  lookup k [] = none
  lookup k ((j, v) ∷ m) = if str_eq j k then some v else lookup k m

  unfoldable pub insert : Str → V → List (Str × V) → List (Str × V)
  insert k v [] = (k, v) ∷ []
  insert k v ((j, w) ∷ m) = if str_eq j k then (k, v) ∷ m else (j, w) ∷ insert k v m

  pub lookup-insert :
      (k j : Str) (v : V) (m : List (Str × V))
      → lookup j (insert k v m) ≡ (if str_eq k j then some v else lookup j m)
  unfolding lookup insert
  lookup-insert k j v [] = refl
  lookup-insert k j v ((i, w) ∷ m) =
      ground (arith, str_eq_iff k j, str_eq_iff i k, str_eq_iff i j, lookup-insert k j v m)

  -- No key stands twice.
  abbrev pub HasUniqueKeys : List (Str × V) → Type ℓ
  HasUniqueKeys [] = Unit
  HasUniqueKeys ((k, v) ∷ m) = (lookup k m ≡ none) × HasUniqueKeys m

  pub insert-HasUniqueKeys :
      (k : Str) (v : V) (m : List (Str × V)) → HasUniqueKeys m → HasUniqueKeys (insert k v m)
  unfolding insert
  insert-HasUniqueKeys k v [] h = (unfold lookup in refl, tt)
  insert-HasUniqueKeys k v ((j, w) ∷ m) h = elim (Bool-cases (str_eq j k)) [
    | inl same ↦ rw same (subst (λ i. lookup i m ≡ none) ((str_eq_iff j k).0 same) h.0, h.1)
    | inr other ↦ rw other (
      rw lookup-insert (ground (arith, h.0, str_eq_iff k j, str_eq_iff j k)),
      insert-HasUniqueKeys k v m h.1,
    )
  ]

  pub mem-of-lookup : (k : Str) (v : V) (m : List (Str × V)) → lookup k m ≡ some v → Memᴰ (k, v) m
  unfolding lookup
  mem-of-lookup k v [] h = cc
  mem-of-lookup k v ((j, w) ∷ m) h = elim (Bool-cases (str_eq j k)) [
    | inl same ↦
        let both : some w ≡ some v = rw same at h in
        let found : w ≡ v = cc in Memᴰ.head (λ i. (sym ((str_eq_iff j k).0 same) i, sym found i))
    | inr other ↦ Memᴰ.tail (mem-of-lookup k v m (rw other at h))
  ]

  not-mem-of-lookup : (k : Str) (v : V) (m : List (Str × V)) → lookup k m ≡ none → Memᴰ (k, v) m → ⊥
  unfolding lookup
  not-mem-of-lookup k v [] h at = elim at [ ]
  not-mem-of-lookup k v ((j, w) ∷ m) h (Memᴰ.head same) =
      let key : str_eq j k ≡ true = (str_eq_iff j k).1 (sym (ap (λ e. e.0) same)) in
      cc (rw key at h)
  not-mem-of-lookup k v ((j, w) ∷ m) h (Memᴰ.tail at) = elim (Bool-cases (str_eq j k)) [
    | inl key ↦ cc (rw key at h)
    | inr other ↦ not-mem-of-lookup k v m (rw other at h) at
  ]

  pub lookup-of-mem :
      (k : Str) (v : V) (m : List (Str × V)) → HasUniqueKeys m → Memᴰ (k, v) m → lookup k m ≡ some v
  unfolding lookup
  lookup-of-mem k v [] u at = elim at [ ]
  lookup-of-mem k v ((j, w) ∷ m) u (Memᴰ.head same) =
      let key : str_eq j k ≡ true = (str_eq_iff j k).1 (sym (ap (λ e. e.0) same)) in
      rw key (ap some (sym (ap (λ e. e.1) same)))
  lookup-of-mem k v ((j, w) ∷ m) u (Memᴰ.tail at) = elim (Bool-cases (str_eq j k)) [
    | inl key ↦
        absurd
          (not-mem-of-lookup k v m (subst (λ i. lookup i m ≡ none) ((str_eq_iff j k).0 key) u.0) at)
    | inr other ↦ rw other (lookup-of-mem k v m u.1 at)
  ]
