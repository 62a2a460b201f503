-- ===== src/Regex/Laws.antt =====
-- The derivative matcher and the declarative meaning of an expression.
use data_profiler.Prelude.{
  ℕ, zero, suc, ◌+◌, ◌≤◌, length, All, Bool, ◌≡◌, refl, sym, ap, ◌∙◌, subst, ◌↔◌, ◌⊎◌, inl, inr,
  Bool, true, [], ◌∷◌, ◌++◌, Str, arith, Bool-cases, if◌then◌else◌,
}
use data_profiler.Regex.{
  Regex, nothing, eps, cls, seq, alt, star, mk_seq, mk_alt, nullable, deriv, matches, exactly,
  up_to, Pieces, done, piece, Matches,
}

nil_of_append : (s t : Str) → ◌≡◌ {A = Str} [] (s ++ t) → (s ≡ []) × (t ≡ [])
nil_of_append [] t e = (refl, sym e)
nil_of_append (x ∷ s) t e = cc

nullable_iff : (r : Regex) → (nullable r ≡ true) ↔ Matches r []
unfolding nullable
nullable_iff nothing = (λ h. cc, λ m. absurd m)
nullable_iff eps = (λ h. refl, λ m. refl)
nullable_iff (cls p) = (λ h. cc, λ m. cc (m.1))
nullable_iff (seq r q) = (
  λ h. ([], [], refl, (nullable_iff r).0 (ground arith), (nullable_iff q).0 (ground arith)),
  λ (s, t, e, a, b).
      let (es, et) = nil_of_append s t e in
      let first = (nullable_iff r).1 (rw es at a) in
      let second = (nullable_iff q).1 (rw et at b) in rw (first, second),
)
nullable_iff (alt r q) = (
  λ h. elim (Bool-cases (nullable r)) [
    | inl e ↦ inl ((nullable_iff r).0 e)
    | inr e ↦ inr ((nullable_iff q).0 (rw e at h))
  ],
  λ m. elim m [ inl a ↦ rw ((nullable_iff r).1 a) | inr b ↦ ground (arith, (nullable_iff q).1 b) ],
)
nullable_iff (star r) = (λ h. done, λ m. refl)

mk_seq_iff : (r q : Regex) (u : Str) → Matches (mk_seq r q) u ↔ Matches (seq r q) u
unfolding mk_seq
mk_seq_iff nothing q u = (λ m. absurd m, λ m. absurd m.3)
mk_seq_iff eps q u = (
  λ m. ([], u, refl, refl, m),
  λ (s, t, e, a, b). let e' : u ≡ t = e ∙ ap (λ x. x ++ t) a in rw e' b,
)
mk_seq_iff (cls p) q u = (λ m. m, λ m. m)
mk_seq_iff (seq a b) q u = (λ m. m, λ m. m)
mk_seq_iff (alt a b) q u = (λ m. m, λ m. m)
mk_seq_iff (star a) q u = (λ m. m, λ m. m)

mk_alt_iff : (r q : Regex) (u : Str) → Matches (mk_alt r q) u ↔ Matches (alt r q) u
unfolding mk_alt
mk_alt_iff nothing q u = (λ m. inr m, λ m. elim m [ inl a ↦ absurd a | inr b ↦ b ])
mk_alt_iff eps q u = (λ m. m, λ m. m)
mk_alt_iff (cls p) q u = (λ m. m, λ m. m)
mk_alt_iff (seq a b) q u = (λ m. m, λ m. m)
mk_alt_iff (alt a b) q u = (λ m. m, λ m. m)
mk_alt_iff (star a) q u = (λ m. m, λ m. m)

-- The first piece that is not empty takes the first byte.
star_head :
    (P : Str → Type 0) (c : ℕ) {v : Str}
    → Pieces P v
    → (s : Str) → v ≡ c ∷ s
    → (a : Str) × (b : Str) × (s ≡ a ++ b) × P (c ∷ a) × Pieces P b
star_head P c done s e = cc
star_head P c (piece {s = []} {t = t} p rest eq) s e = star_head P c rest s (sym eq ∙ e)
star_head P c (piece {s = x ∷ a} {t = t} p rest eq) s e =
    let whole : x ∷ (a ++ t) ≡ c ∷ s = sym eq ∙ e in (a, t, cc, subst (λ y. P (y ∷ a)) (cc) p, rest)

-- The cases of a sequence: the first byte goes to `r`, or `r` takes nothing.
module _ (c : ℕ) (r q d e : Regex) (first : (s : Str) → Matches d s ↔ Matches r (c ∷ s))
    (second : (s : Str) → Matches e s ↔ Matches q (c ∷ s)) where
  seq_front : (s : Str) → Matches (seq d q) s → Matches (seq r q) (c ∷ s)
  seq_front s (a, b, eq, x, y) = (c ∷ a, b, ap (λ z. c ∷ z) eq, (first a).0 x, y)

  seq_back :
      (s a b : Str)
      → c ∷ s ≡ a ++ b
      → Matches r a
      → Matches q b
      → Matches (seq d q) s ⊎ (Matches r [] × Matches e s)
  seq_back s [] b eq x y = inr (x, (second s).1 (rw eq y))
  seq_back s (z ∷ a) b eq x y =
      inl (a, b, cc, (first a).1 (subst (λ w. Matches r (w ∷ a)) (cc) x), y)

  seq_step :
      (s : Str)
      → Matches (let one = mk_seq d q in if nullable r then mk_alt one e else one) s
        ↔ Matches (seq r q) (c ∷ s)
  seq_step s = elim (Bool-cases (nullable r)) [
    | inl yes_nil ↦ rw yes_nil (
      λ m. elim ((mk_alt_iff (mk_seq d q) e s).0 m) [
        | inl a ↦ seq_front s ((mk_seq_iff d q s).0 a)
        | inr b ↦ ([], c ∷ s, refl, (nullable_iff r).0 yes_nil, (second s).0 b)
      ],
      λ (a, b, eq, x, y). (mk_alt_iff (mk_seq d q) e s).1 (elim (seq_back s a b eq x y) [
        | inl m ↦ inl ((mk_seq_iff d q s).1 m)
        | inr (_, m) ↦ inr m
      ]),
    )
    | inr no_nil ↦ rw no_nil (
      λ m. seq_front s ((mk_seq_iff d q s).0 m),
      λ (a, b, eq, x, y). elim (seq_back s a b eq x y) [
        | inl m ↦ (mk_seq_iff d q s).1 m
        | inr (m, _) ↦ let always = (nullable_iff r).1 m in cc
      ],
    )
  ]

deriv_iff : (c : ℕ) (r : Regex) (s : Str) → Matches (deriv c r) s ↔ Matches r (c ∷ s)
unfolding deriv
deriv_iff c nothing s = (λ m. m, λ m. m)
deriv_iff c eps s = (λ m. absurd m, λ m. cc)
deriv_iff c (cls p) s = elim (Bool-cases (p c)) [
  | inl e ↦ rw e (λ m. (c, ap (λ x. c ∷ x) m, e), λ (d, eq, h). cc)
  | inr e ↦ rw e (λ m. absurd m, λ (d, eq, h). let same : p c ≡ p d = ap p (cc) in cc)
]
deriv_iff c (seq r q) s = seq_step c r q (deriv c r) (deriv c q) (deriv_iff c r) (deriv_iff c q) s
deriv_iff c (alt r q) s = (
  λ m. elim ((mk_alt_iff (deriv c r) (deriv c q) s).0 m) [
    | inl a ↦ inl ((deriv_iff c r s).0 a)
    | inr b ↦ inr ((deriv_iff c q s).0 b)
  ],
  λ m.
      (mk_alt_iff (deriv c r) (deriv c q) s).1
        (elim m [ inl a ↦ inl ((deriv_iff c r s).1 a) | inr b ↦ inr ((deriv_iff c q s).1 b) ]),
)
deriv_iff c (star r) s = (
  λ m.
      let (a, b, e, x, y) = (mk_seq_iff (deriv c r) (star r) s).0 m in
      piece ((deriv_iff c r a).0 x) y (ap (λ z. c ∷ z) e),
  λ m.
      let (a, b, e, x, y) = star_head (Matches r) c m s refl in
      (mk_seq_iff (deriv c r) (star r) s).1 (a, b, e, (deriv_iff c r a).1 x, y),
)

-- MatchString decides the meaning of an expression, on every text.
pub matches_iff : (r : Regex) (s : Str) → (matches r s ≡ true) ↔ Matches r s
unfolding matches
matches_iff r [] = nullable_iff r
matches_iff r (c ∷ s) = (
  λ h. (deriv_iff c r s).0 ((matches_iff (deriv c r) s).0 h),
  λ m. (matches_iff (deriv c r) s).1 ((deriv_iff c r s).1 m),
)

-- Bounded repetitions of a class of bytes.
module _ (p : ℕ → Bool) where
  pub up_to_iff :
      (n : ℕ) (s : Str) → Matches (up_to n (cls p)) s ↔ (All (λ c. p c ≡ true) s × (length s ≤ n))
  up_to_iff zero [] = (λ e. (tt, omega arith), λ h. refl)
  up_to_iff zero (c ∷ s) = (λ e. cc, λ h. absurd (omega arith))
  up_to_iff (suc n) [] = (λ h. (tt, omega arith), λ h. inl refl)
  up_to_iff (suc n) (c ∷ s) = (
    λ h. elim h [
      | inl e ↦ cc
      | inr (a, t, e, (d, es, hd), m) ↦
          let (all, fits) = (up_to_iff n t).0 m in
          let whole : c ∷ s ≡ d ∷ t = e ∙ ap (λ z. z ++ t) es in
          subst (λ w. All (λ b. p b ≡ true) w × (length w ≤ suc n)) (sym whole)
            ((hd, all), omega arith)
    ],
    λ h. inr (c ∷ [], s, refl, (c, refl, h.0.0), (up_to_iff n s).1 (h.0.1, omega arith)),
  )

  -- r{m} followed by r{0,n}
  pub repeat-Matches :
      (m n : ℕ) (s : Str)
      → All (λ c. p c ≡ true) s
      → m ≤ length s
      → length s ≤ m + n
      → Matches (seq (exactly m (cls p)) (up_to n (cls p))) s
  repeat-Matches zero n s h lo hi = ([], s, refl, refl, (up_to_iff n s).1 (h, omega arith))
  repeat-Matches (suc m) n [] h lo hi = absurd (omega arith)
  repeat-Matches (suc m) n (c ∷ s) h lo hi =
      let (a, b, e, x, y) = repeat-Matches m n s h.1 (omega arith) (omega arith) in
      (c ∷ a, b, ap (λ z. c ∷ z) e, (c ∷ [], a, refl, (c, refl, h.0), x), y)
