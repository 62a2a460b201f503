-- ===== src/Worker/Waiting.antt =====
-- The jobs that wait, in the order in which they are selected.
use data_profiler.Prelude.{
  ℕ, zero, suc, ◌≡◌, ◌≤◌, refl, ap, ◌⊎◌, true, List, [], ◌∷◌, Str, map, length, take, str_eq,
  str_eq_iff, leb, Bool-cases, inl, inr, arith, if◌then◌else◌,
}
use data_profiler.Prelude.Int.{ℤ, pos, pos_part, leb_ℤ}
use data_profiler.Store.Tables.{
  JobRow, find_job, is_queued, by_time, queued_rows, is_stale, recover_row,
}
use data_profiler.Store.{half_hour}
use data_profiler.Worker.Shutdown.{is_waiting}

abbrev pub ids_of : List JobRow → List Str
ids_of rows = map (λ r. r.id) rows

abbrev pub In : Str → List Str → Type 0
In x [] = ⊥
In x (y ∷ ys) = (y ≡ x) ⊎ In x ys

-- The interval that the database compares with.
abbrev pub interval_of : ℤ → ℕ
interval_of stale_after = pos_part (if leb_ℤ stale_after (pos 0) then half_hour else stale_after)

In-by_time :
    (id : Str) (r : JobRow) (rows : List JobRow)
    → In id (r.id ∷ ids_of rows)
    → In id (ids_of (by_time r rows))
unfolding by_time
In-by_time id r [] h = h
In-by_time id r (q ∷ rows) h = elim (Bool-cases (leb r.created_at q.created_at)) [
  | inl e ↦ rw e h
  | inr e ↦ rw e (elim h [
    | inl own ↦ inr (In-by_time id r rows (inl own))
    | inr (inl other) ↦ inl other
    | inr (inr rest) ↦ inr (In-by_time id r rows (inr rest))
  ])
]

-- A waiting job is selected.
pub In-queued_rows :
    (id : Str) (rows : List JobRow)
    → is_waiting (find_job id rows) ≡ true
    → In id (ids_of (queued_rows rows))
unfolding find_job queued_rows
In-queued_rows id [] h = cc h
In-queued_rows id (r ∷ rows) h = elim (Bool-cases (str_eq r.id id)) [
  | inl e ↦
      let waits : is_queued r.status ≡ true = rw e at h in
      rw waits (In-by_time id r (queued_rows rows) (inl ((str_eq_iff r.id id).0 e)))
  | inr e ↦
      let rest = In-queued_rows id rows (rw e at h) in
      elim (Bool-cases (is_queued r.status)) [
        | inl w ↦ rw w (In-by_time id r (queued_rows rows) (inr rest))
        | inr w ↦ rw w rest
      ]
]

-- Recovering stale jobs keeps the waiting ones.
pub is_waiting-recover :
    (now interval : ℕ) (id : Str) (rows : List JobRow)
    → is_waiting (find_job id rows) ≡ true
    → is_waiting (find_job id (map (recover_row now interval) rows)) ≡ true
unfolding find_job
is_waiting-recover now interval id [] h = h
is_waiting-recover now interval id (r ∷ rows) h = elim (Bool-cases (is_stale now interval r)) [
  | inl s ↦ elim (Bool-cases (str_eq r.id id)) [
    | inl e ↦ rw (s, e) refl
    | inr e ↦ rw (s, e) (is_waiting-recover now interval id rows (rw e at h))
  ]
  | inr s ↦ elim (Bool-cases (str_eq r.id id)) [
    | inl e ↦ rw (s, e) (rw e at h)
    | inr e ↦ rw (s, e) (is_waiting-recover now interval id rows (rw e at h))
  ]
]

pub take-all : {A : Type 0} (n : ℕ) (l : List A) → length l ≤ n → take n l ≡ l
take-all zero [] h = refl
take-all zero (x ∷ l) h = absurd (omega arith)
take-all (suc n) [] h = refl
take-all (suc n) (x ∷ l) h = ap (λ k. x ∷ k) (take-all n l (omega arith))
