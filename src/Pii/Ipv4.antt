-- ===== src/Pii/Ipv4.antt =====
-- Which texts `validIPv4` accepts.
use data_profiler.Prelude.{
  ◌≤◌, ◌≡◌, ◌↔◌, refl, sym, ap, ◌∙◌, subst, true, List, [], ◌∷◌, ◌++◌, Str, arith, length, ◌==◌,
  All, Bool-cases, inl, inr,
}
use data_profiler.Regex.{seq, byte, matches, Matches}
use data_profiler.Regex.Laws.{matches_iff, up_to_iff}
use data_profiler.Pii.Patterns.{is_digit, octet_digits, ipv4_re}
use data_profiler.Pii.Checks.{decimal_from, split_dots, octets_ok, valid_ipv4}
use mathlib.Core.List.{append_assoc, append-nil}

abbrev pub IsDigits : Str → Type 0
IsDigits = All (λ c. is_digit c ≡ true)

-- One to three digits.
abbrev HasOctetShape : Str → Type 0
HasOctetShape p = IsDigits p × (1 ≤ length p) × (length p ≤ 3)

-- A decimal number of one to three digits that is at most 255.
abbrev pub IsOctet : Str → Type 0
IsOctet p = IsDigits p × (1 ≤ length p) × (length p ≤ 3) × (decimal_from 0 p ≤ 255)

abbrev pub dotted : Str → Str → Str → Str → Str
dotted a b c d = a ++ b'.' ∷ (b ++ b'.' ∷ (c ++ b'.' ∷ d))

octet_digits_iff : (p : Str) → Matches octet_digits p ↔ HasOctetShape p
octet_digits_iff [] = (λ (s, t, e, (d, es, hd), m). cc, λ h. absurd (omega arith))
octet_digits_iff (c ∷ p) = (
  λ (s, t, e, (d, es, hd), m).
      let (digits, fits) = (up_to_iff is_digit 2 t).0 m in
      let whole : c ∷ p ≡ d ∷ t = e ∙ ap (λ z. z ++ t) es in
      subst HasOctetShape (sym whole) ((hd, digits), omega arith, omega arith),
  λ h. (c ∷ [], p, refl, (c, refl, h.0.0), (up_to_iff is_digit 2 p).1 (h.0.1, omega arith)),
)

split_dots-eq-cons : (s : Str) → (p : Str) × (ps : List Str) × (split_dots s ≡ p ∷ ps)
unfolding split_dots
split_dots-eq-cons [] = ([], [], refl)
split_dots-eq-cons (c ∷ s) =
    let (p, ps, e) = split_dots-eq-cons s in
    elim (Bool-cases (c == b'.')) [
      | inl dot ↦ ([], p ∷ ps, rw e (ground arith))
      | inr other ↦ (c ∷ p, ps, rw e (ground arith))
    ]

-- A part without a dot, up to the next dot and at the end.
split_dots-part : (p t : Str) → IsDigits p → split_dots (p ++ b'.' ∷ t) ≡ p ∷ split_dots t
unfolding split_dots
split_dots-part [] t h = let (p, ps, e) = split_dots-eq-cons t in rw e
split_dots-part (c ∷ p) t h = rw (split_dots-part p t h.1) (ground arith)

split_dots-last : (p : Str) → IsDigits p → split_dots p ≡ p ∷ []
unfolding split_dots
split_dots-last [] h = refl
split_dots-last (c ∷ p) h = rw (split_dots-last p h.1) (ground arith)

split_dots-dotted :
    (a b c d : Str)
    → IsDigits a
    → IsDigits b
    → IsDigits c
    → IsDigits d
    → split_dots (dotted a b c d) ≡ a ∷ b ∷ c ∷ d ∷ []
split_dots-dotted a b c d ha hb hc hd =
    rw
      (split_dots-part a _ ha, split_dots-part b _ hb, split_dots-part c d hc, split_dots-last d hd)

-- What the expression accepts: four groups of one to three digits.
record Shape (s : Str) : Type 0 where
  a : Str
  b : Str
  c : Str
  d : Str
  shape_a : HasOctetShape a
  shape_b : HasOctetShape b
  shape_c : HasOctetShape c
  shape_d : HasOctetShape d
  whole : s ≡ dotted a b c d

-- A group and its dot.
group :
    (s : Str)
    → Matches (seq octet_digits (byte b'.')) s
    → (p : Str) × HasOctetShape p × (s ≡ p ++ b'.' ∷ [])
group s (p, q, e, m, (c, ec, hc)) =
    let dot : c ≡ b'.' = ground arith in
    (p, (octet_digits_iff p).0 m, e ∙ ap (λ z. p ++ z) (ec ∙ ap (λ z. z ∷ []) dot))

Shape-of_match : (s : Str) → Matches ipv4_re s → Shape s
unfolding ipv4_re
Shape-of_match s (abc, d, e, (sa, bc, e1, ma, (sb, c', e2, mb, (sc, z, e3, mc, ez))), md) =
    let (a, ha, ea) = group sa ma in
    let (b, hb, eb) = group sb mb in
    let (c, hc, ec) = group sc mc in
    record {
      a = a;
      b = b;
      c = c;
      d = d;
      shape_a = ha;
      shape_b = hb;
      shape_c = hc;
      shape_d = (octet_digits_iff d).0 md;
      whole = simp (e, e1, e2, e3, ez, ea, eb, ec, append_assoc, append-nil);
    }

group_back : (p : Str) → HasOctetShape p → Matches (seq octet_digits (byte b'.')) (p ++ b'.' ∷ [])
group_back p h = (p, b'.' ∷ [], refl, (octet_digits_iff p).1 h, (b'.', refl, refl))

match_of_shape :
    (a b c d : Str)
    → HasOctetShape a
    → HasOctetShape b
    → HasOctetShape c
    → HasOctetShape d
    → Matches ipv4_re (dotted a b c d)
unfolding ipv4_re
match_of_shape a b c d ha hb hc hd = (
  a ++ b'.' ∷ (b ++ b'.' ∷ (c ++ b'.' ∷ [])),
  d,
  simp append_assoc,
  (
    a ++ b'.' ∷ [],
    b ++ b'.' ∷ (c ++ b'.' ∷ []),
    simp append_assoc,
    group_back a ha,
    (
      b ++ b'.' ∷ [],
      c ++ b'.' ∷ [],
      simp append_assoc,
      group_back b hb,
      (c ++ b'.' ∷ [], [], simp append-nil, group_back c hc, refl),
    ),
  ),
  (octet_digits_iff d).1 hd,
)

octets_ok-four :
    (a b c d : Str)
    → (octets_ok (a ∷ b ∷ c ∷ d ∷ []) ≡ true) ↔ (
        (decimal_from 0 a ≤ 255)
        × (decimal_from 0 b ≤ 255)
        × (decimal_from 0 c ≤ 255)
        × (decimal_from 0 d ≤ 255))
unfolding octets_ok
octets_ok-four a b c d = ground arith

-- A text is accepted exactly when it is four decimal numbers of one to three digits, each at most 255,
-- with a dot between each two.
pub valid_ipv4_iff :
    (s : Str)
    → (valid_ipv4 s ≡ true) ↔ (
        (a : Str) × (b : Str) × (c : Str) × (d : Str) × IsOctet a
        × IsOctet b
        × IsOctet c
        × IsOctet d
        × (s ≡ dotted a b c d))
unfolding valid_ipv4
valid_ipv4_iff s = (
  λ h.
      let matched : matches ipv4_re s ≡ true = ground arith in
      let shape = Shape-of_match s ((matches_iff ipv4_re s).0 matched) in
      let cut : split_dots s ≡ shape.a ∷ shape.b ∷ shape.c ∷ shape.d ∷ [] =
        ap split_dots shape.whole
        ∙ split_dots-dotted shape.a shape.b shape.c shape.d shape.shape_a.0 shape.shape_b.0
            shape.shape_c.0 shape.shape_d.0 in
      let ok : octets_ok (split_dots s) ≡ true = ground arith in
      let (la, lb, lc, ld) = (octets_ok-four shape.a shape.b shape.c shape.d).0 (rw cut at ok) in
      (
        shape.a,
        shape.b,
        shape.c,
        shape.d,
        (shape.shape_a.0, shape.shape_a.1, shape.shape_a.2, la),
        (shape.shape_b.0, shape.shape_b.1, shape.shape_b.2, lb),
        (shape.shape_c.0, shape.shape_c.1, shape.shape_c.2, lc),
        (shape.shape_d.0, shape.shape_d.1, shape.shape_d.2, ld),
        shape.whole,
      ),
  λ (a, b, c, d, ha, hb, hc, hd, e).
      let matched = (matches_iff ipv4_re (dotted a b c d)).1 (
        match_of_shape a b c d (ha.0, ha.1, ha.2) (hb.0, hb.1, hb.2) (hc.0, hc.1, hc.2)
          (hd.0, hd.1, hd.2)) in
      rw (e, matched, split_dots-dotted a b c d ha.0 hb.0 hc.0 hd.0)
        ((octets_ok-four a b c d).1 (ha.3, hb.3, hc.3, hd.3)),
)
