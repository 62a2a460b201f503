-- ===== src/Store/Oldest.antt =====
-- internal/store/store.go: the ORDER BY of the statement that lists the waiting jobs.
use data_profiler.Prelude.{
  ℕ, ◌≡◌, ◌≤◌, refl, ap, Bool, true, false, List, [], ◌∷◌, map, leb, Bool-cases, inl, inr, arith,
  if◌then◌else◌, ◌||◌,
}
use data_profiler.Store.Tables.{JobRow, is_queued, by_time, queued_rows, is_stale, recover_row}
use mathlib.Core.List.{Mem, Perm, Pairwise, Pairwise-singleton, forall_mem-cons}
use native.Mathlib.Bridge.{le_prop}
use mathlib.Core.List.Perm

or_true : (b : Bool) → true ≡ (b || true)
or_true true = refl
or_true false = refl

or_false : (b : Bool) → b ≡ (b || false)
or_false true = refl
or_false false = refl

-- An earlier row has not been created later.
abbrev pub IsOldestFirst : List JobRow → Type 0
IsOldestFirst rows = Pairwise (λ a b. a.created_at ≤ b.created_at) rows

-- A job that is queued, or that has been running for longer than the interval.
abbrev pub waits : ℕ → ℕ → JobRow → Bool
waits now interval r = is_queued r.status || is_stale now interval r

unfoldable pub rows_that : (JobRow → Bool) → List JobRow → List JobRow
rows_that test [] = []
rows_that test (r ∷ rows) = let rest = rows_that test rows in if test r then r ∷ rest else rest

-- The same rows, each put in its place by its time.
unfoldable sorted_rows : (JobRow → Bool) → List JobRow → List JobRow
sorted_rows test [] = []
sorted_rows test (r ∷ rows) =
    let rest = sorted_rows test rows in if test r then by_time r rest else rest

by_time-perm : (r : JobRow) (rows : List JobRow) → Perm (by_time r rows) (r ∷ rows)
unfolding by_time
by_time-perm r [] = Perm.rfl
by_time-perm r (q ∷ rows) = elim (Bool-cases (leb r.created_at q.created_at)) [
  | inl e ↦ rw e Perm.rfl
  | inr e ↦ rw e (Perm.trans (Perm.cons q (by_time-perm r rows)) (Perm.swap r q rows))
]

-- A time that is not after the first is not after the others.
AllFrom-cons :
    (t : ℕ) (q : JobRow) (rows : List JobRow)
    → t ≤ q.created_at
    → ((x : JobRow) → Mem x rows → t ≤ x.created_at)
    → (x : JobRow) → Mem x (q ∷ rows)
    → t ≤ x.created_at
AllFrom-cons t q rows first rest =
    (forall_mem-cons {p = λ x. t ≤ x.created_at} (λ x. le_prop)).1 (first, rest)

by_time-IsOldestFirst :
    (r : JobRow) (rows : List JobRow) → IsOldestFirst rows → IsOldestFirst (by_time r rows)
unfolding by_time
by_time-IsOldestFirst r [] s = Pairwise-singleton _ r
by_time-IsOldestFirst r (q ∷ rows) (Pairwise.cons below s) =
    elim (Bool-cases (leb r.created_at q.created_at)) [
      | inl e ↦ rw e (
          let first : r.created_at ≤ q.created_at = ground arith in
          Pairwise.cons
            (AllFrom-cons r.created_at q rows first
              (λ x at. let later = below x at in omega (arith, first, later)))
            (Pairwise.cons below s))
      | inr e ↦ rw e (
          let first : q.created_at ≤ r.created_at = ground arith in
          Pairwise.cons
            (λ x at.
              AllFrom-cons q.created_at r rows first below x
                ((Perm.mem_iff (by_time-perm r rows)).0 at))
            (by_time-IsOldestFirst r rows s))
    ]

sorted_rows-perm :
    (test : JobRow → Bool) (rows : List JobRow) → Perm (sorted_rows test rows) (rows_that test rows)
unfolding sorted_rows rows_that
sorted_rows-perm test [] = Perm.rfl
sorted_rows-perm test (r ∷ rows) =
    let rest = sorted_rows-perm test rows in
    elim (Bool-cases (test r)) [
      | inl e ↦ rw e (Perm.trans (by_time-perm r (sorted_rows test rows)) (Perm.cons r rest))
      | inr e ↦ rw e rest
    ]

sorted_rows-IsOldestFirst :
    (test : JobRow → Bool) (rows : List JobRow) → IsOldestFirst (sorted_rows test rows)
unfolding sorted_rows
sorted_rows-IsOldestFirst test [] = Pairwise.nil
sorted_rows-IsOldestFirst test (r ∷ rows) =
    let rest = sorted_rows-IsOldestFirst test rows in
    elim (Bool-cases (test r)) [
      | inl e ↦ rw e (by_time-IsOldestFirst r (sorted_rows test rows) rest)
      | inr e ↦ rw e rest
    ]

module _ (now interval : ℕ) where
  created_at-recover_row : (r : JobRow) → (recover_row now interval r).created_at ≡ r.created_at
  created_at-recover_row r = elim (Bool-cases (is_stale now interval r)) [
    | inl e ↦ rw e refl
    | inr e ↦ rw e refl
  ]

  pub id-recover_row : (r : JobRow) → (recover_row now interval r).id ≡ r.id
  id-recover_row r = elim (Bool-cases (is_stale now interval r)) [
    | inl e ↦ rw e refl
    | inr e ↦ rw e refl
  ]

  is_queued-recover_row :
      (r : JobRow) → is_queued (recover_row now interval r).status ≡ waits now interval r
  is_queued-recover_row r = elim (Bool-cases (is_stale now interval r)) [
    | inl e ↦ rw e (or_true (is_queued r.status))
    | inr e ↦ rw e (or_false (is_queued r.status))
  ]

  by_time-recover_row :
      (r : JobRow) (rows : List JobRow)
      → by_time (recover_row now interval r) (map (recover_row now interval) rows)
        ≡ map (recover_row now interval) (by_time r rows)
  unfolding by_time
  by_time-recover_row r [] = refl
  by_time-recover_row r (q ∷ rows) = elim (Bool-cases (leb r.created_at q.created_at)) [
    | inl e ↦ rw (created_at-recover_row r, created_at-recover_row q, e) refl
    | inr e ↦
        rw (created_at-recover_row r, created_at-recover_row q, e)
          (ap (λ l. recover_row now interval q ∷ l) (by_time-recover_row r rows))
  ]

  queued_rows-recover_row :
      (rows : List JobRow)
      → queued_rows (map (recover_row now interval) rows)
        ≡ map (recover_row now interval) (sorted_rows (waits now interval) rows)
  unfolding queued_rows sorted_rows
  queued_rows-recover_row [] = refl
  queued_rows-recover_row (r ∷ rows) = elim (Bool-cases (waits now interval r)) [
    | inl e ↦
        rw (is_queued-recover_row r, e, queued_rows-recover_row rows)
          (by_time-recover_row r (sorted_rows (waits now interval) rows))
    | inr e ↦ rw (is_queued-recover_row r, e) (queued_rows-recover_row rows)
  ]

  -- After the recovery the statement selects the jobs that wait, the oldest first.
  pub queued_rows-oldest :
      (rows : List JobRow)
      → (oldest : List JobRow) × IsOldestFirst oldest
        × Perm oldest (rows_that (waits now interval) rows)
        × (queued_rows (map (recover_row now interval) rows)
            ≡ map (recover_row now interval) oldest)
  queued_rows-oldest rows = (
    sorted_rows (waits now interval) rows,
    sorted_rows-IsOldestFirst (waits now interval) rows,
    sorted_rows-perm (waits now interval) rows,
    queued_rows-recover_row rows,
  )
