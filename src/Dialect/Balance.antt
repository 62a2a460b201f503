-- ===== src/Dialect/Balance.antt =====
-- A lexer of SQL that follows literals, quoted identifiers and parentheses.
use data_profiler.Prelude.{
  ℕ, zero, suc, ◌≡◌, refl, Bool, true, false, Option, none, some, [], ◌∷◌, ◌++◌, Str, ◌==◌,
  Bool-cases, replace_byte, inl, inr, if◌then◌else◌,
}
use data_profiler.Dialect.Query.{words, name, Query, text}
use data_profiler.Dialect.Quoting.{same_byte}
use data_profiler.Dialect.{Dialect, postgres, mysql, sqlserver, opening, closing, quote}

-- Outside of everything, in a literal, in a quoted identifier, or just past a closing byte, which a
-- second one would take back.
pub data Mode : Type 0 where
  plain literal inside past : Mode

-- The mode, and how many parentheses are open.
abbrev pub State : Type 0
State = Mode × ℕ

abbrev pub close_one : ℕ → Option State
close_one zero = none
close_one (suc n) = some (plain, n)

-- A byte outside of literals and identifiers.
unfoldable pub plain_step : Dialect → ℕ → ℕ → Option State
plain_step d n x =
    if x == b'('
    then some (plain, suc n)
    else if x == b')'
    then close_one n
    else if x == b'\''
    then some (literal, n)
    else if x == opening d
    then some (inside, n)
    else some (plain, n)

unfoldable pub step : Dialect → State → ℕ → Option State
unfolding plain_step
step d (plain, n) x = plain_step d n x
step d (literal, n) x = if x == b'\'' then some (plain, n) else some (literal, n)
step d (inside, n) x = if x == closing d then some (past, n) else some (inside, n)
step d (past, n) x = if x == closing d then some (inside, n) else plain_step d n x

abbrev pub bind_state : Option State → (State → Option State) → Option State
bind_state none f = none
bind_state (some s) f = f s

unfoldable pub scan : Dialect → State → Str → Option State
scan d s [] = some s
scan d s (x ∷ t) = bind_state (step d s x) (λ s'. scan d s' t)

-- The same over the pieces of a query, where an identifier is skipped in one step. The outer option is
-- none where an identifier does not stand in plain text.
abbrev pub skip_name : State → Option (Option State)
skip_name (plain, n) = some (some (past, n))
skip_name (_, n) = none

abbrev pub bind_outcome :
    Option (Option State) → (State → Option (Option State)) → Option (Option State)
bind_outcome none f = none
bind_outcome (some none) f = some none
bind_outcome (some (some s)) f = f s

unfoldable pub scan_pieces : Dialect → State → Query → Option (Option State)
scan_pieces d s [] = some (some s)
scan_pieces d s (words w ∷ q) = bind_outcome (some (scan d s w)) (λ s'. scan_pieces d s' q)
scan_pieces d s (name w ∷ q) = bind_outcome (skip_name s) (λ s'. scan_pieces d s' q)

-- A text in which every literal and identifier ends and every parenthesis has its partner.
abbrev pub ends_well : Option State → Bool
ends_well (some (plain, zero)) = true
ends_well (some (past, zero)) = true
ends_well _ = false

abbrev pub IsBalanced : Dialect → Query → Type 0
IsBalanced d q = ends_well (scan d (plain, 0) (text d q)) ≡ true

scan-append :
    (d : Dialect) (s : State) (a b : Str)
    → scan d s (a ++ b) ≡ bind_state (scan d s a) (λ s'. scan d s' b)
unfolding scan
scan-append d s [] b = refl
scan-append d s (x ∷ a) b = go (λ s'. scan-append d s' a b) (step d s x)
  where
    go :
        ((s' : State) → scan d s' (a ++ b) ≡ bind_state (scan d s' a) (λ s''. scan d s'' b))
        → (o : Option State)
        → bind_state o (λ s'. scan d s' (a ++ b))
          ≡ bind_state (bind_state o (λ s'. scan d s' a)) (λ s'. scan d s' b)
    go ih none = refl
    go ih (some s') = ih s'

scan-inside :
    (d : Dialect) (n : ℕ) (w : Str)
    → scan d (inside, n) (replace_byte (closing d) (closing d ∷ closing d ∷ []) w ++ closing d ∷ [])
      ≡ some (past, n)
unfolding scan step replace_byte
scan-inside d n [] = rw same_byte refl
scan-inside d n (x ∷ w) =
    let ih = scan-inside d n w in
    elim (Bool-cases (x == closing d)) [
      | inl e ↦ rw (e, same_byte, same_byte) ih
      | inr e ↦ rw (e, e) ih
    ]

scan-quote : (d : Dialect) (n : ℕ) (w : Str) → scan d (plain, n) (quote d w) ≡ some (past, n)
unfolding scan step quote
scan-quote postgres n w = scan-inside postgres n w
scan-quote mysql n w = scan-inside mysql n w
scan-quote sqlserver n w = scan-inside sqlserver n w

scan-nil : (d : Dialect) (s : State) → scan d s [] ≡ some s
unfolding scan
scan-nil d s = refl

follow :
    (r : Option State) (k : State → Option (Option State)) (f : State → Option State)
    (o : Option State)
    → ((s : State) → k s ≡ some o → f s ≡ o)
    → bind_outcome (some r) k ≡ some o
    → bind_state r f ≡ o
follow none k f o ih h = cc h
follow (some s) k f o ih h = ih s h

-- What the pieces give is what the text gives, whatever the names are.
pub scan-text :
    (d : Dialect) (s : State) (q : Query) (o : Option State)
    → scan_pieces d s q ≡ some o
    → scan d s (text d q) ≡ o
unfolding scan_pieces text
scan-text d s [] o h = rw scan-nil (cc h)
scan-text d s (words w ∷ q) o h = rw scan-append (
    follow (scan d s w) (λ s'. scan_pieces d s' q) (λ s'. scan d s' (text d q)) o
      (λ s'. scan-text d s' q o) h)
scan-text d (plain, n) (name w ∷ q) o h = rw (scan-append, scan-quote) (scan-text d (past, n) q o h)
scan-text d (literal, n) (name w ∷ q) o h = cc h
scan-text d (inside, n) (name w ∷ q) o h = cc h
scan-text d (past, n) (name w ∷ q) o h = cc h
