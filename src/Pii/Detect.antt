-- ===== src/Pii/Detect.antt =====
-- What `DetectProfile` guarantees of its answer.
use data_profiler.Prelude.{
  ◌≡◌, ◌⊎◌, refl, sym, ◌∙◌, true, false, Option, none, some, List, [], ◌∷◌, Str, arith, All,
  Bool-cases, Option-cases, if◌then◌else◌, inl, inr,
}
use data_profiler.Prelude.Float.{Float64}
use data_profiler.Domain.{ValueCount}
use data_profiler.Pii.{
  Detection, HeaderRule, normalize, name_hit, header_label, value_labels, hundredths,
  value_match_ratio, header_confidence, no_detection, detect_values, detect_profile,
}
use mathlib.Core.List
use mathlib.Core.List.{Mem, Memᴰ, Perm}
use mathlib.Core.Option
use mathlib.Core.Logic.{∥∥₁_elim}
use native.Mathlib.Nat.{ℕ_set}
use mathlib.Core.List.Perm

module _ (header : Str) where
  abbrev pub IsHit : HeaderRule → Type 0
  IsHit r = name_hit header r.1 ≡ true

  header_label-eq-some :
      (order : List HeaderRule) (label : Str)
      → header_label header order ≡ some label
      → (r : HeaderRule) × Memᴰ r order × IsHit r × (r.0 ≡ label)
  unfolding header_label
  header_label-eq-some [] label e = cc
  header_label-eq-some ((l, names) ∷ rules) label e = elim (Bool-cases (name_hit header names)) [
    | inl hit ↦ ((l, names), Memᴰ.head refl, hit, ground arith)
    | inr miss ↦
        let (r, at, hit, same) = header_label-eq-some rules label (ground arith) in
        (r, Memᴰ.tail at, hit, same)
  ]

  header_label-eq-none :
      (order : List HeaderRule) (r : HeaderRule)
      → header_label header order ≡ none
      → Memᴰ r order
      → name_hit header r.1 ≡ false
  unfolding header_label
  header_label-eq-none [] r e at = elim at [ ]
  header_label-eq-none ((l, names) ∷ rules) r e (Memᴰ.head same) =
      elim (Bool-cases (name_hit header names)) [ inl hit ↦ ground arith | inr miss ↦ rw same miss ]
  header_label-eq-none ((l, names) ∷ rules) r e (Memᴰ.tail at) =
      header_label-eq-none rules r (ground arith) at

  -- All the rules that the header hits have one label.
  abbrev pub HasOneLabel : List HeaderRule → Type 0
  HasOneLabel order = (r q : HeaderRule) → Mem r order → Mem q order → IsHit r → IsHit q → r.0 ≡ q.0

  -- It is enough to look at the rules one by one.
  pub HasOneLabel-of_All :
      (l : Str) (order : List HeaderRule) → All (λ r. IsHit r → r.0 ≡ l) order → HasOneLabel order
  HasOneLabel-of_All l order h r q mr mq hr hq = ∥∥₁_elim mr (List.is_set ℕ_set _ _) λ ar.
      ∥∥₁_elim mq (List.is_set ℕ_set _ _)
        λ aq. at_rule order r h ar hr ∙ sym (at_rule order q h aq hq)
    where
      at_rule :
          (rules : List HeaderRule) (r : HeaderRule)
          → All (λ r. IsHit r → r.0 ≡ l) rules
          → Memᴰ r rules
          → IsHit r
          → r.0 ≡ l
      at_rule [] r h at = elim at [ ]
      at_rule (x ∷ rules) r h (Memᴰ.head same) = λ hit. rw same (h.0 (rw same at hit))
      at_rule (x ∷ rules) r h (Memᴰ.tail at) = at_rule rules r h.1 at

  label_set : IsSet (Option Str)
  label_set = Option.is_set (List.is_set ℕ_set)

  header_label-perm :
      (order visit : List HeaderRule)
      → Perm order visit
      → HasOneLabel order
      → header_label header order ≡ header_label header visit
  header_label-perm order visit p one = elim (Option-cases (header_label header order)) [
    | inl e ↦ elim (Option-cases (header_label header visit)) [
      | inl e' ↦ e ∙ sym e'
      | inr (l, e') ↦
          let (r, at, hit, same) = header_label-eq-some visit l e' in
          ∥∥₁_elim ((Perm.mem_iff p).1 ∣ at ∣₁) (label_set _ _)
            λ at'. let miss = header_label-eq-none order r e at' in cc
    ]
    | inr (l, e) ↦
        let (r, at, hit, same) = header_label-eq-some order l e in
        elim (Option-cases (header_label header visit)) [
          | inl e' ↦
              ∥∥₁_elim ((Perm.mem_iff p).0 ∣ at ∣₁) (label_set _ _)
                λ at'. let miss = header_label-eq-none visit r e' at' in cc
          | inr (l', e') ↦
              let (q, at', hit', same') = header_label-eq-some visit l' e' in
              let agree = one r q ∣ at ∣₁ ((Perm.mem_iff p).1 ∣ at' ∣₁) hit hit' in cc
        ]
  ]

module _ (fl : Float64) (column data_type : Str) (values : List (ValueCount fl.F)) where
  open fl use {F, of_int, fdiv, fle}

  -- Whatever order Go visits the header rules in, the answer is the same, if all the rules that the
  -- normalised header hits have one label.
  pub detect_profile-perm :
      (order visit : List HeaderRule)
      → Perm order visit
      → HasOneLabel (normalize column) order
      → detect_profile fl order column data_type values
        ≡ detect_profile fl visit column data_type values
  unfolding detect_profile
  detect_profile-perm order visit p one =
      rw (header_label-perm (normalize column) order visit p one)

  -- The three ways to an answer: a header rule, the values alone, or neither.
  abbrev pub FromHeader : List HeaderRule → Detection F → Type 0
  FromHeader order d =
      (r : HeaderRule) × Memᴰ r order
      × IsHit (normalize column) r
      × (d.label ≡ r.0)
      × (d.confidence
          ≡ header_confidence fl (normalize column) r.0 (value_match_ratio fl r.0 values))

  abbrev pub FromValues : List Str → Detection F → Type 0
  FromValues labels d =
      Memᴰ d.label labels
      × ((fle (hundredths fl 50) (value_match_ratio fl d.label values) ≡ true)
          ⊎ (fle (hundredths fl 80) (value_match_ratio fl d.label values) ≡ true))
      × (d.confidence ≡ (
          if fle (hundredths fl 80) (value_match_ratio fl d.label values)
          then hundredths fl 90
          else hundredths fl 80))

  abbrev pub NoEvidence : List Str → Detection F → Type 0
  NoEvidence labels d =
      (d ≡ no_detection fl)
      × All
          (λ l.
            (fle (hundredths fl 80) (value_match_ratio fl l values) ≡ false)
            × (fle (hundredths fl 50) (value_match_ratio fl l values) ≡ false))
          labels

  detect_values_sound :
      (labels : List Str)
      → FromValues labels (detect_values fl values labels)
        ⊎ NoEvidence labels (detect_values fl values labels)
  unfolding detect_values
  detect_values_sound [] = inr (refl, tt)
  detect_values_sound (l ∷ labels) =
      elim (Bool-cases (fle (hundredths fl 80) (value_match_ratio fl l values))) [
        | inl high ↦ inl (rw high (Memᴰ.head refl, inr high, rw high))
        | inr low ↦ elim (Bool-cases (fle (hundredths fl 50) (value_match_ratio fl l values))) [
          | inl half ↦ inl (rw (low, half) (Memᴰ.head refl, inl half, rw low))
          | inr less ↦
              rw (low, less)
                (elim (detect_values_sound labels) [
                  | inl (at, ratio, conf) ↦ inl (Memᴰ.tail at, ratio, conf)
                  | inr (none_found, below) ↦ inr (none_found, ((refl, refl), below))
                ])
        ]
      ]

  -- Every answer is one of three. It is the label of a header rule that the normalised header hits,
  -- with the confidence that the values then give. Or no rule is hit, and it is one of the six value
  -- labels, its match ratio passes the test for 0.50 or for 0.80, and its confidence is 0.90 or 0.80
  -- as it passes the latter or not. Or no rule is hit, no value label's ratio passes either test, and
  -- the answer is empty.
  pub detect_profile_sound :
      (order : List HeaderRule)
      → FromHeader order (detect_profile fl order column data_type values)
        ⊎ (((r : HeaderRule) → Memᴰ r order → name_hit (normalize column) r.1 ≡ false)
            × (FromValues value_labels (detect_profile fl order column data_type values)
                ⊎ NoEvidence value_labels (detect_profile fl order column data_type values)))
  unfolding detect_profile
  detect_profile_sound order = elim (Option-cases (header_label (normalize column) order)) [
    | inl e ↦ inr (
      λ r at. header_label-eq-none (normalize column) order r e at,
      rw e (detect_values_sound value_labels),
    )
    | inr (l, e) ↦
        let (r, at, hit, same) = header_label-eq-some (normalize column) order l e in
        inl (r, at, hit, rw e (sym same), rw (e, same))
  ]
