-- ===== src/Regex.antt =====
-- Package regexp, as far as internal/pii uses it: MatchString of an expression anchored by ^ and $,
-- over ASCII texts. The matcher takes derivatives; `Matches` is the meaning of an expression.
pub mod Laws
use data_profiler.Prelude.{
  ℕ, zero, suc, ◌≡◌, Bool, true, false, ◌&&◌, ◌||◌, List, [], ◌∷◌, ◌++◌, ◌⊎◌, Str, ◌==◌, leb,
  if◌then◌else◌,
}

pub data Regex : Type 0 where
  nothing : Regex
  eps : Regex
  cls : (ℕ → Bool) → Regex
  seq : Regex → Regex → Regex
  alt : Regex → Regex → Regex
  star : Regex → Regex

-- r?, r+, r{n} and r{0,n}
abbrev pub opt : Regex → Regex
opt r = alt eps r

abbrev pub plus : Regex → Regex
plus r = seq r (star r)

abbrev pub exactly : ℕ → Regex → Regex
exactly zero r = eps
exactly (suc n) r = seq r (exactly n r)

abbrev pub up_to : ℕ → Regex → Regex
up_to zero r = eps
up_to (suc n) r = opt (seq r (up_to n r))

abbrev pub byte : ℕ → Regex
byte b = cls (λ c. c == b)

-- Sequence and choice with the trivial cases removed, so that derivatives stay small.
unfoldable pub mk_seq : Regex → Regex → Regex
mk_seq nothing q = nothing
mk_seq eps q = q
mk_seq (cls p) q = seq (cls p) q
mk_seq (seq a b) q = seq (seq a b) q
mk_seq (alt a b) q = seq (alt a b) q
mk_seq (star a) q = seq (star a) q

unfoldable pub mk_alt : Regex → Regex → Regex
mk_alt nothing q = q
mk_alt eps q = alt eps q
mk_alt (cls p) q = alt (cls p) q
mk_alt (seq a b) q = alt (seq a b) q
mk_alt (alt a b) q = alt (alt a b) q
mk_alt (star a) q = alt (star a) q

unfoldable pub nullable : Regex → Bool
nullable nothing = false
nullable eps = true
nullable (cls p) = false
nullable (seq r q) = nullable r && nullable q
nullable (alt r q) = nullable r || nullable q
nullable (star r) = true

unfoldable pub deriv : ℕ → Regex → Regex
unfolding nullable mk_seq mk_alt
deriv c nothing = nothing
deriv c eps = nothing
deriv c (cls p) = if p c then eps else nothing
deriv c (seq r q) =
    let first = mk_seq (deriv c r) q in
    let second = deriv c q in if nullable r then mk_alt first second else first
deriv c (alt r q) = mk_alt (deriv c r) (deriv c q)
deriv c (star r) = mk_seq (deriv c r) (star r)

unfoldable pub matches : Regex → Str → Bool
unfolding nullable deriv
matches r [] = nullable r
matches r (c ∷ s) = matches (deriv c r) s

-- A text cut into pieces that each satisfy `P`.
pub data Pieces (P : Str → Type 0) : Str → Type 0 where
  done : Pieces P []
  piece : {s t u : Str} → P s → Pieces P t → u ≡ s ++ t → Pieces P u

-- What an expression means.
abbrev pub Matches : Regex → Str → Type 0
Matches nothing u = ⊥
Matches eps u = u ≡ []
Matches (cls p) u = (c : ℕ) × (u ≡ c ∷ []) × (p c ≡ true)
Matches (seq r q) u = (s : Str) × (t : Str) × (u ≡ s ++ t) × Matches r s × Matches q t
Matches (alt r q) u = Matches r u ⊎ Matches q u
Matches (star r) u = Pieces (Matches r) u
