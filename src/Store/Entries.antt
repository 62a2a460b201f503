-- ===== src/Store/Entries.antt =====
-- The rows of jobs that have an idempotency key.
use data_profiler.Prelude.{
  ◌≡◌, ◌≢◌, refl, sym, ap, ◌∙◌, inl, inr, true, Option, none, some, List, [], ◌∷◌, Str, str_eq_refl,
  str_eq_iff, All, Bool-cases, Option-cases,
}
use data_profiler.Store.Tables.{JobRow, find_key, key_is}
use data_profiler.Store.Index.{Entry, index, IsUnique, MayCoexist, HasEntry}

pub row_of_key :
    (key : Str) (rows : List JobRow) (r : JobRow)
    → find_key key rows ≡ some r
    → HasEntry (r.id, some key) (index rows)
unfolding find_key
row_of_key key [] r h = cc h
row_of_key key (q ∷ rows) r h = elim (Bool-cases (key_is key q.idempotency_key)) [
  | inl e ↦ inl (first q.idempotency_key refl e (rw e at h))
  | inr e ↦ inr (row_of_key key rows r (rw e at h))
]
  where
    first :
        (k : Option Str)
        → q.idempotency_key ≡ k
        → key_is key k ≡ true
        → some q ≡ some r
        → ◌≡◌ {A = Entry} (q.id, q.idempotency_key) (r.id, some key)
    first none at e same = cc e
    first (some x) at e same =
        let eq : x ≡ key = (str_eq_iff x key).0 e in
        let row : q ≡ r = cc same in
        ap (λ p. (q.id, p)) (at ∙ ap some eq) ∙ ap (λ p. (p.id, some key)) row

apart :
    (key x : Str) (d : Entry) (l : List Entry) {y : Str}
    → d ≡ (y, some key)
    → All (λ e. (d.0 ≢ e.0) × MayCoexist d.1 e.1) l
    → HasEntry (x, some key) l
    → ⊥
apart key x d [] p a h = h
apart key x d (e ∷ l) p a (inl q) = (rw (p, q) at a.0.1) refl
apart key x d (e ∷ l) p a (inr q) = apart key x d l p a.1 q

pub one_key :
    (key : Str) (x y : Str) (l : List Entry)
    → IsUnique l
    → HasEntry (x, some key) l
    → HasEntry (y, some key) l
    → x ≡ y
one_key key x y [] u h k = absurd h
one_key key x y (d ∷ l) u (inl p) (inl q) = ap (λ e. e.0) (sym p ∙ q)
one_key key x y (d ∷ l) u (inl p) (inr q) = absurd (apart key y d l p u.0 q)
one_key key x y (d ∷ l) u (inr p) (inl q) = absurd (apart key x d l q u.0 p)
one_key key x y (d ∷ l) u (inr p) (inr q) = one_key key x y l u.1 p q

missing_key :
    (id key : Str) (rows : List JobRow)
    → HasEntry (id, some key) (index rows)
    → find_key key rows ≡ none
    → ⊥
unfolding find_key
missing_key id key [] h absent = h
missing_key id key (q ∷ rows) h absent = elim (Bool-cases (key_is key q.idempotency_key)) [
  | inl e ↦ let found = rw e at absent in cc found
  | inr e ↦ elim h [
    | inr rest ↦ missing_key id key rows rest (rw e at absent)
    | inl own ↦
        let at : q.idempotency_key ≡ some key = ap (λ p. p.1) own in
        let hit : key_is key q.idempotency_key ≡ true = rw (at, str_eq_refl key) refl in cc (hit, e)
  ]
]

-- The row that a key selects is the one that has it.
pub keyed_row :
    (id key : Str) (rows : List JobRow)
    → IsUnique (index rows)
    → HasEntry (id, some key) (index rows)
    → (row : JobRow) × (find_key key rows ≡ some row) × (row.id ≡ id)
keyed_row id key rows u h = elim (Option-cases (find_key key rows)) [
  | inl absent ↦ absurd (missing_key id key rows h absent)
  | inr (row, found) ↦
      (row, found, one_key key row.id id (index rows) u (row_of_key key rows row found) h)
]
