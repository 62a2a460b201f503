-- ===== src/Profile/Orders.antt =====
-- The orders in which the columns' profiles can be handed in.
use data_profiler.Prelude.{
  length-set, length-replicate, get_elem?-set, get_elem?-set_other, get_elem?-lt,
  get_elem?-same_length, list_ext, ℕ, zero, suc, ◌<◌, ◌≡◌, refl, sym, ap, ◌∙◌, Bool, true, false,
  ◌||◌, Option, none, some, List, [], ◌∷◌, Str, length, get_elem?, replicate, ◌⊎◌, ◌==◌, Bool-cases,
  Option-cases, ==_iff, inl, inr, arith, if◌then◌else◌, subst,
}
use data_profiler.Store.{ok, err}
use data_profiler.Profile.Gather.{
  Event, finishes, gives_up, Gathered, hand_in, hand_in_found, gather, gather_all,
}

-- The goroutine of column `i` hands in its profile.
abbrev pub hands_in : ℕ → List Event → Bool
hands_in i [] = false
hands_in i (finishes j ∷ es) = (j == i) || hands_in i es
hands_in i (gives_up j ∷ es) = hands_in i es

-- So do all of the `n` goroutines.
abbrev pub Covers : List Event → ℕ → Type 0
Covers es n = (i : ℕ) → i < n → hands_in i es ≡ true

module _ {P : Type 0} where
  abbrev pub firsts : List (P × Option Str) → List P
  firsts [] = []
  firsts ((p, e) ∷ l) = p ∷ firsts l

  -- No column failed.
  abbrev pub all_found : List (P × Option Str) → Bool
  all_found [] = true
  all_found ((p, none) ∷ l) = all_found l
  all_found ((p, some e) ∷ l) = false

  abbrev first_at : List (P × Option Str) → ℕ → Option P
  first_at l i = get_elem? (firsts l) i

  found_fine :
      (l : List (P × Option Str)) (i : ℕ) (p : P) (e : Option Str)
      → all_found l ≡ true
      → get_elem? l i ≡ some (p, e)
      → (e ≡ none) × (first_at l i ≡ some p)
  found_fine [] i p e h at = cc at
  found_fine ((q, none) ∷ l) zero p e h at = (
    ap (λ o. elim o [ none ↦ e | some x ↦ x.1 ]) (sym at),
    ap (λ o. elim o [ none ↦ none | some x ↦ some x.0 ]) at,
  )
  found_fine ((q, some f) ∷ l) zero p e h at = cc h
  found_fine ((q, none) ∷ l) (suc i) p e h at = found_fine l i p e h at
  found_fine ((q, some f) ∷ l) (suc i) p e h at = cc h

  found_none : (l : List (P × Option Str)) (i : ℕ) → get_elem? l i ≡ none → first_at l i ≡ none
  found_none [] i h = refl
  found_none ((q, e) ∷ l) zero h = cc h
  found_none ((q, e) ∷ l) (suc i) h = found_none l i h

  -- An entry that failed.
  a_failure :
      (l : List (P × Option Str))
      → all_found l ≡ false
      → (i : ℕ) × (p : P) × (e : Str) × (i < length l) × (get_elem? l i ≡ some (p, some e))
  a_failure [] h = cc h
  a_failure ((p, some e) ∷ l) h = (0, p, e, omega arith, refl)
  a_failure ((p, none) ∷ l) h =
      let (i, q, e, lt, at) = a_failure l h in (suc i, q, e, omega arith, at)

  module _ (found : List (P × Option Str)) where
    length-hand_in_found :
        (i : ℕ) (o : Option (P × Option Str)) (g : Gathered P)
        → length (hand_in_found i o g).out ≡ length g.out
    length-hand_in_found i none g = refl
    length-hand_in_found i (some (p, none)) g = length-set g.out i p
    length-hand_in_found i (some (p, some e)) g = go g.first
      where
        go : (f : Option Str) → length (hand_in i p (some e) f g.out).out ≡ length g.out
        go none = refl
        go (some f) = length-set g.out i p

    module _ (fine : all_found found ≡ true) where
      abbrev Found : ℕ → Type 0
      Found i =
          ((get_elem? found i ≡ none) × (first_at found i ≡ none))
          ⊎ ((p : P) × (get_elem? found i ≡ some (p, none))
              × (first_at found i ≡ some p)
              × (i < length found))

      Found-cases : (i : ℕ) → Found i
      Found-cases i = elim (Option-cases (get_elem? found i)) [
        | inl e ↦ inl (e, found_none found i e)
        | inr (pe, e) ↦
            let (no_error, at) = found_fine found i pe.0 pe.1 fine e in
            inr (pe.0, e ∙ ap (λ x. some (pe.0, x)) no_error, at, get_elem?-lt found i pe e)
      ]

      -- What one profile does to its place and to the others.
      slot_own :
          (i : ℕ) (g : Gathered P)
          → length g.out ≡ length found
          → get_elem? (hand_in_found i (get_elem? found i) g).out i ≡ first_at found i
      slot_own i g len = elim (Found-cases i) [
        | inl (e, at) ↦ rw (e, at) (get_elem?-same_length found g.out i len e)
        | inr (p, e, at, lt) ↦ rw (e, at) (get_elem?-set g.out i p (omega arith))
      ]

      slot_other :
          (i j : ℕ) (g : Gathered P)
          → (i == j) ≡ false
          → get_elem? (hand_in_found i (get_elem? found i) g).out j ≡ get_elem? g.out j
      slot_other i j g other = elim (Found-cases i) [
        | inl (e, at) ↦ rw e refl
        | inr (p, e, at, lt) ↦ rw e (get_elem?-set_other g.out i j p other)
      ]

      no_first : (i : ℕ) (g : Gathered P) → (hand_in_found i (get_elem? found i) g).first ≡ g.first
      no_first i g = elim (Found-cases i) [
        | inl (e, at) ↦ rw e refl
        | inr (p, e, at, lt) ↦ rw e refl
      ]

      pub gather-first : (es : List Event) (g : Gathered P) → (gather found es g).first ≡ g.first
      unfolding gather
      gather-first [] g = refl
      gather-first (gives_up i ∷ es) g = gather-first es g
      gather-first (finishes i ∷ es) g = gather-first es _ ∙ no_first i g

      pub gather-slot :
          (es : List Event) (j : ℕ) (g : Gathered P)
          → length g.out ≡ length found
          → get_elem? (gather found es g).out j
            ≡ (if hands_in j es then first_at found j else get_elem? g.out j)
      unfolding gather
      gather-slot [] j g len = refl
      gather-slot (gives_up i ∷ es) j g len = gather-slot es j g len
      gather-slot (finishes i ∷ es) j g len =
          let next = hand_in_found i (get_elem? found i) g in
          let ih = gather-slot es j next (length-hand_in_found i (get_elem? found i) g ∙ len) in
          elim (Bool-cases (hands_in j es)) [
            | inl h ↦ elim (Bool-cases (i == j)) [
              | inl e ↦ rw (h, e) (rw h at ih)
              | inr e ↦ rw (h, e) (rw h at ih)
            ]
            | inr h ↦ elim (Bool-cases (i == j)) [
              | inl e ↦
                  let same : i ≡ j = (==_iff i j).0 e in
                  rw (h, e)
                    (rw h at ih
                      ∙ subst (λ k. get_elem? next.out k ≡ first_at found k) same
                          (slot_own i g len))
              | inr e ↦ rw (h, e) (rw h at ih ∙ slot_other i j g e)
            ]
          ]

      covered :
          (blank : P) (es : List Event)
          → Covers es (length found)
          → (j : ℕ)
          → get_elem?
              (gather found es (record { out = replicate (length found) blank; first = none })).out
              j
            ≡ get_elem? (firsts found) j
      covered blank es all j =
          let start : Gathered P = record { out = replicate (length found) blank; first = none } in
          let len = length-replicate (length found) blank in
          let slot = gather-slot es j start len in
          elim (Found-cases j) [
            | inr (p, e, at, lt) ↦ rw (all j lt) at slot
            | inl (e, at) ↦
                let outside : get_elem? start.out j ≡ none =
                  get_elem?-same_length found start.out j len e in
                elim (Bool-cases (hands_in j es)) [
                  | inl h ↦ rw h at slot
                  | inr h ↦ slot ∙ rw (h, outside, at) refl
                ]
          ]

    -- Once a column has failed, the first error stays.
    first_stays :
        (es : List Event) (e : Str) (g : Gathered P)
        → g.first ≡ some e
        → (gather found es g).first ≡ some e
    unfolding gather
    first_stays [] e g h = h
    first_stays (gives_up i ∷ es) e g h = first_stays es e g h
    first_stays (finishes i ∷ es) e g h = first_stays es e _ (kept (get_elem? found i))
      where
        kept : (o : Option (P × Option Str)) → (hand_in_found i o g).first ≡ some e
        kept none = h
        kept (some (p, none)) = h
        kept (some (p, some f)) = rw h refl

    fails :
        (i : ℕ) (p : P) (e : Str)
        → get_elem? found i ≡ some (p, some e)
        → (es : List Event) (g : Gathered P) → hands_in i es ≡ true
        → (f : Str) × ((gather found es g).first ≡ some f)
    unfolding gather
    fails i p e at [] g h = cc h
    fails i p e at (gives_up j ∷ es) g h = fails i p e at es g h
    fails i p e at (finishes j ∷ es) g h = elim (Bool-cases (j == i)) [
      | inr other ↦ fails i p e at es _ (rw other at h)
      | inl own ↦
          let same : j ≡ i = (==_iff j i).0 own in
          let here : get_elem? found j ≡ some (p, some e) = rw same at in
          elim (Option-cases g.first) [
            | inl n ↦ (e, first_stays es e _ (rw here (rw n refl)))
            | inr (f, n) ↦ (f, first_stays es f _ (rw here (rw n refl)))
          ]
    ]

  -- In whatever order the goroutines finish, if all do: the profiles are all there, each in its column's place, if
  -- no column failed, and the result is an error if one did.
  pub gather_all-orders :
      (blank : P) (found : List (P × Option Str)) (es : List Event)
      → Covers es (length found)
      → ((all_found found ≡ true) × (gather_all blank found es ≡ ok (firsts found)))
        ⊎ ((all_found found ≡ false) × ((e : Str) × (gather_all blank found es ≡ err e)))
  unfolding gather_all
  gather_all-orders blank found es all = elim (Bool-cases (all_found found)) [
    | inl fine ↦
        let start : Gathered P = record { out = replicate (length found) blank; first = none } in
        let quiet : (gather found es start).first ≡ none = gather-first found fine es start in
        inl (fine, rw quiet (ap (λ l. ok l) (list_ext _ _ (covered found fine blank es all))))
    | inr broken ↦
        let (i, p, e, lt, at) = a_failure found broken in
        let (f, h) =
          fails found i p e at es (record { out = replicate (length found) blank; first = none })
            (all i lt) in
        inr (broken, (f, rw h refl))
  ]
