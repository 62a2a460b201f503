-- ===== src/Store/Index.antt =====
-- The ids and idempotency keys of the rows of jobs (migrations/001_init.sql, 003_idempotency.sql).
use data_profiler.Prelude.{
  ℕ, zero, suc, take, leb, ◌≡◌, ◌≢◌, ◌⊎◌, inl, inr, refl, false, Option, none, some, List, [], ◌∷◌,
  ◌++◌, map, Str, str_eq, str_eq_iff, All, All-append, Bool-cases,
}
use data_profiler.Domain.{Status}
use data_profiler.Store.Tables.{
  JobRow, find_job, find_key, key_is, has_job, has_key, update_row, recover_row, is_stale, by_time,
  queued_rows, is_queued,
}

-- An id and its key.
abbrev pub Entry : Type 0
Entry = Str × Option Str

abbrev pub index : List JobRow → List Entry
index [] = []
index (r ∷ rows) = (r.id, r.idempotency_key) ∷ index rows

-- Two keys that the unique index lets stand side by side.
abbrev pub MayCoexist : Option Str → Option Str → Type 0
MayCoexist none k = Unit
MayCoexist (some j) none = Unit
MayCoexist (some j) (some k) = j ≢ k

abbrev pub IsFresh : Entry → List Entry → Type 0
IsFresh (id, key) = All (λ e. (e.0 ≢ id) × MayCoexist e.1 key)

abbrev pub IsUnique : List Entry → Type 0
IsUnique [] = Unit
IsUnique (e ∷ l) = All (λ d. (e.0 ≢ d.0) × MayCoexist e.1 d.1) l × IsUnique l

abbrev pub HasId : Str → List Entry → Type 0
HasId id [] = ⊥
HasId id (e ∷ l) = (e.0 ≡ id) ⊎ HasId id l

abbrev pub HasEntry : Entry → List Entry → Type 0
HasEntry e [] = ⊥
HasEntry e (d ∷ l) = (d ≡ e) ⊎ HasEntry e l

pub HasEntry-left : (e : Entry) (l k : List Entry) → HasEntry e l → HasEntry e (l ++ k)
HasEntry-left e [] k h = absurd h
HasEntry-left e (d ∷ l) k h = elim h [ inl p ↦ inl p | inr q ↦ inr (HasEntry-left e l k q) ]

pub HasEntry-last : (e : Entry) (l : List Entry) → HasEntry e (l ++ e ∷ [])
HasEntry-last e [] = inl refl
HasEntry-last e (d ∷ l) = inr (HasEntry-last e l)

pub IsUnique-snoc : (e : Entry) (l : List Entry) → IsFresh e l → IsUnique l → IsUnique (l ++ e ∷ [])
IsUnique-snoc e [] f u = (tt, tt)
IsUnique-snoc e (d ∷ l) f u = (All-append _ l (e ∷ []) u.0 (f.0, tt), IsUnique-snoc e l f.1 u.1)

pub HasId-left : (id : Str) (l k : List Entry) → HasId id l → HasId id (l ++ k)
HasId-left id [] k h = absurd h
HasId-left id (e ∷ l) k h = elim h [ inl p ↦ inl p | inr q ↦ inr (HasId-left id l k q) ]

pub HasId-last : (id : Str) (key : Option Str) (l : List Entry) → HasId id (l ++ (id, key) ∷ [])
HasId-last id key [] = inl refl
HasId-last id key (e ∷ l) = inr (HasId-last id key l)

pub index-append : (rows more : List JobRow) → index (rows ++ more) ≡ index rows ++ index more
index-append [] more = refl
index-append (r ∷ rows) more = rw (index-append rows more)

-- What the constraints of the table test.
pub IsFresh-of_tests :
    (id : Str) (key : Option Str) (rows : List JobRow)
    → has_job id rows ≡ false
    → has_key key rows ≡ false
    → IsFresh (id, key) (index rows)
unfolding find_job find_key
IsFresh-of_tests id key [] hi hk = tt
IsFresh-of_tests id none (r ∷ rows) hi hk = elim (Bool-cases (str_eq r.id id)) [
  | inl same ↦ let found = rw same at hi in cc found
  | inr other ↦ (
    (λ e. let same = (str_eq_iff r.id id).1 e in cc, coexist r.idempotency_key),
    IsFresh-of_tests id none rows (rw other at hi) hk,
  )
]
  where
    coexist : (k : Option Str) → MayCoexist k none
    coexist none = tt
    coexist (some j) = tt
IsFresh-of_tests id (some key) (r ∷ rows) hi hk = elim (Bool-cases (str_eq r.id id)) [
  | inl same ↦ let found = rw same at hi in cc found
  | inr other ↦ elim (Bool-cases (key_is key r.idempotency_key)) [
    | inl same ↦ let found = rw same at hk in cc found
    | inr differs ↦ (
      (λ e. let same = (str_eq_iff r.id id).1 e in cc, coexist r.idempotency_key differs),
      IsFresh-of_tests id (some key) rows (rw other at hi) (rw differs at hk),
    )
  ]
]
  where
    coexist : (k : Option Str) → key_is key k ≡ false → MayCoexist k (some key)
    coexist none h = tt
    coexist (some j) h = λ e. let same = (str_eq_iff j key).1 e in cc

pub index-update_row :
    (id : Str) (status : Status) (error : Str) (started finished : Option ℕ) (rows : List JobRow)
    → index (update_row id status error started finished rows) ≡ index rows
unfolding update_row
index-update_row id status error started finished [] = refl
index-update_row id status error started finished (r ∷ rows) =
    let ih = index-update_row id status error started finished rows in
    elim (Bool-cases (str_eq r.id id)) [ inl e ↦ rw (e, ih) | inr e ↦ rw (e, ih) ]

pub index-recover :
    (now interval : ℕ) (rows : List JobRow)
    → index (map (recover_row now interval) rows) ≡ index rows
index-recover now interval [] = refl
index-recover now interval (r ∷ rows) =
    let ih = index-recover now interval rows in
    elim (Bool-cases (is_stale now interval r)) [ inl e ↦ rw (e, ih) | inr e ↦ rw (e, ih) ]

-- The rows whose ids are all in an index.
abbrev pub AllKnown : List Entry → List JobRow → Type 0
AllKnown known = All (λ r. HasId r.id known)

AllKnown-widen :
    (known : List Entry) (e : Entry) (rows : List JobRow)
    → AllKnown known rows
    → AllKnown (e ∷ known) rows
AllKnown-widen known e [] a = tt
AllKnown-widen known e (r ∷ rows) a = (inr a.0, AllKnown-widen known e rows a.1)

by_time-AllKnown :
    (known : List Entry) (r : JobRow) (rows : List JobRow)
    → HasId r.id known
    → AllKnown known rows
    → AllKnown known (by_time r rows)
unfolding by_time
by_time-AllKnown known r [] h a = (h, tt)
by_time-AllKnown known r (q ∷ rows) h a = elim (Bool-cases (leb r.created_at q.created_at)) [
  | inl e ↦ rw e (h, (a.0, a.1))
  | inr e ↦ rw e (a.0, by_time-AllKnown known r rows h a.1)
]

queued_rows-AllKnown :
    (known : List Entry) (rows : List JobRow)
    → AllKnown known rows
    → AllKnown known (queued_rows rows)
unfolding queued_rows
queued_rows-AllKnown known [] a = tt
queued_rows-AllKnown known (r ∷ rows) a =
    let rest = queued_rows-AllKnown known rows a.1 in
    elim (Bool-cases (is_queued r.status)) [
      | inl e ↦ rw e (by_time-AllKnown known r (queued_rows rows) a.0 rest)
      | inr e ↦ rw e rest
    ]

AllKnown-self : (rows : List JobRow) → AllKnown (index rows) rows
AllKnown-self [] = tt
AllKnown-self (r ∷ rows) =
    (inl refl, AllKnown-widen (index rows) (r.id, r.idempotency_key) rows (AllKnown-self rows))

take-AllKnown :
    (known : List Entry) (n : ℕ) (rows : List JobRow)
    → AllKnown known rows
    → AllKnown known (take n rows)
take-AllKnown known zero rows a = tt
take-AllKnown known (suc n) [] a = tt
take-AllKnown known (suc n) (r ∷ rows) a = (a.0, take-AllKnown known n rows a.1)

-- The rows that ListQueuedJobs selects.
pub AllKnown-selected :
    (n : ℕ) (rows : List JobRow) → AllKnown (index rows) (take n (queued_rows rows))
AllKnown-selected n rows =
    take-AllKnown (index rows) n (queued_rows rows)
      (queued_rows-AllKnown (index rows) rows (AllKnown-self rows))
