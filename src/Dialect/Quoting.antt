-- ===== src/Dialect/Quoting.antt =====
-- Reading back a quoted identifier.
use data_profiler.Prelude.{
  ℕ, ◌≡◌, refl, sym, ap, true, false, some, [], ◌∷◌, ◌++◌, Str, ◌==◌, Bool-cases, replace_byte, inl,
  inr, arith,
}
use data_profiler.Dialect.{Dialect, closing, quote, read_name, read_quoted}

-- The text does not go on with the byte.
abbrev pub StartsOther : ℕ → Str → Type 0
StartsOther c [] = Unit
StartsOther c (x ∷ s) = (x == c) ≡ false

append_assoc : (a : Str) (c : ℕ) (rest : Str) → (a ++ c ∷ []) ++ rest ≡ a ++ c ∷ rest
append_assoc [] c rest = refl
append_assoc (x ∷ a) c rest = ap (λ l. x ∷ l) (append_assoc a c rest)

pub same_byte : (c : ℕ) → (c == c) ≡ true
same_byte c = ground arith

read_name-closed :
    (c : ℕ) (rest : Str) → StartsOther c rest → read_name c true rest ≡ some ([], rest)
unfolding read_name
read_name-closed c [] h = refl
read_name-closed c (x ∷ rest) h = rw h refl

read_name-replace_byte :
    (c : ℕ) (s rest : Str)
    → StartsOther c rest
    → read_name c false (replace_byte c (c ∷ c ∷ []) s ++ c ∷ rest) ≡ some (s, rest)
unfolding read_name replace_byte
read_name-replace_byte c [] rest h = rw same_byte (read_name-closed c rest h)
read_name-replace_byte c (x ∷ s) rest h =
    let ih = read_name-replace_byte c s rest h in
    elim (Bool-cases (x == c)) [
      | inl e ↦
          let same : x ≡ c = ground (arith, e) in
          rw (e, same_byte, ih) (ap (λ y. some (y ∷ s, rest)) (sym same))
      | inr e ↦ rw (e, e, ih) refl
    ]

-- In each dialect a quoted name reads back as the name, whatever bytes it has, and the rest of the text stays for the
-- query, if the rest does not begin with the closing byte: no name can end its own quotation.
pub read_quoted-quote :
    (d : Dialect) (name rest : Str)
    → StartsOther (closing d) rest
    → read_quoted d (quote d name ++ rest) ≡ some (name, rest)
unfolding read_quoted quote
read_quoted-quote d name rest h =
    rw (same_byte, append_assoc) (read_name-replace_byte (closing d) name rest h)
