-- ===== src/Worker/Tasks/Started.antt =====
-- What Start puts in the channel: each id once, whichever statements fail.
use data_profiler.Prelude.{
  ℕ, zero, suc, ◌+◌, ◌≤◌, ◌≡◌, ◌≢◌, ◌⊎◌, refl, inl, inr, true, false, Option, none, some, List, [],
  ◌∷◌, map, take, Str, str_eq, str_eq_iff, length, ltb, leb, All, Bool-cases, Option-cases, arith,
}
use data_profiler.Prelude.Int.{pos}
use data_profiler.Prelude.Float.{Float64}
use data_profiler.Domain.{ProfileRequest, Job}
use data_profiler.Store.Tables.{JobRow, is_queued, by_time, queued_rows}
use data_profiler.Store.{
  Result, ok, err, Env, Db, scan_job, collect, job_limit, list_queued_jobs,
  recover_stale_running_jobs,
}
use data_profiler.Store.Index.{index, MayCoexist, IsUnique}
use data_profiler.Store.Keeps.{call-holds, recover_stale_running_jobs-Keeps}
use data_profiler.Worker.{System, capacity, branch, on_db, enqueue, enqueue_all, start}
use data_profiler.Worker.Tasks.Moves.{occurs, occurs-append}

-- How many rows have an id.
abbrev rows_with : Str → List JobRow → ℕ
rows_with id rows = occurs id (map (λ r. r.id) rows)

by_time-rows_with :
    (id : Str) (r : JobRow) (rows : List JobRow)
    → rows_with id (by_time r rows) ≡ rows_with id (r ∷ rows)
unfolding by_time
by_time-rows_with id r [] = refl
by_time-rows_with id r (q ∷ rows) = elim (Bool-cases (leb r.created_at q.created_at)) [
  | inl e ↦ rw e refl
  | inr e ↦ rw e (let rest = by_time-rows_with id r rows in omega (arith, rest))
]

queued_rows-rows_with :
    (id : Str) (rows : List JobRow) → rows_with id (queued_rows rows) ≤ rows_with id rows
unfolding queued_rows
queued_rows-rows_with id [] = omega arith
queued_rows-rows_with id (r ∷ rows) =
    let rest = queued_rows-rows_with id rows in
    let sorted = by_time-rows_with id r (queued_rows rows) in
    elim (Bool-cases (is_queued r.status)) [
      | inl e ↦ rw e (omega (arith, rest, sorted))
      | inr e ↦ rw e (omega (arith, rest))
    ]

take-rows_with :
    (id : Str) (n : ℕ) (rows : List JobRow) → rows_with id (take n rows) ≤ rows_with id rows
take-rows_with id zero rows = omega arith
take-rows_with id (suc n) [] = omega arith
take-rows_with id (suc n) (r ∷ rows) = omega (arith, take-rows_with id n rows)

no_other :
    (id : Str) (key : Option Str) (rows : List JobRow)
    → All (λ d. (id ≢ d.0) × MayCoexist key d.1) (index rows)
    → rows_with id rows ≡ 0
no_other id key [] a = refl
no_other id key (r ∷ rows) a = elim (Bool-cases (str_eq r.id id)) [
  | inl same ↦ let eq : r.id ≡ id = (str_eq_iff r.id id).0 same in absurd (a.0.0 (cc eq))
  | inr other ↦ rw (other, no_other id key rows a.1) refl
]

unique-rows_with : (id : Str) (rows : List JobRow) → IsUnique (index rows) → rows_with id rows ≤ 1
unique-rows_with id [] u = omega arith
unique-rows_with id (r ∷ rows) u = elim (Bool-cases (str_eq r.id id)) [
  | inl same ↦
      let eq : r.id ≡ id = (str_eq_iff r.id id).0 same in
      let alone = no_other r.id r.idempotency_key rows u.0 in
      rw (same, rw eq at alone) (omega arith)
  | inr other ↦ rw other (omega (arith, unique-rows_with id rows u.1))
]

module _ (fl : Float64) (env : Env fl.F) where
  open fl use {F}

  jobs_with : Str → List (Job F) → ℕ
  jobs_with id js = occurs id (map (λ j. j.id) js)

  enqueue-occurs :
      (id x : Str) (s : System)
      → occurs id (enqueue x s).1.queue ≤ occurs id s.queue + occurs id (x ∷ [])
  unfolding enqueue
  enqueue-occurs id x s = elim (Bool-cases s.stopped) [
    | inl e ↦ rw e (omega arith)
    | inr e ↦ elim (Bool-cases (ltb (length s.queue) capacity)) [
      | inl h ↦ rw (e, h) (omega (arith, occurs-append id s.queue (x ∷ [])))
      | inr h ↦ rw (e, h) (omega arith)
    ]
  ]

  enqueue_all-occurs :
      (id : Str) (js : List (Job F)) (s : System)
      → occurs id (enqueue_all fl env js s).queue ≤ occurs id s.queue + jobs_with id js
  unfolding enqueue_all jobs_with
  enqueue_all-occurs id [] s = omega arith
  enqueue_all-occurs id (j ∷ js) s =
      let sent = enqueue-occurs id j.id s in
      elim (Bool-cases (enqueue j.id s).0) [
        | inl e ↦
            rw e
              (let rest = enqueue_all-occurs id js (enqueue j.id s).1 in omega (arith, sent, rest))
        | inr e ↦ rw e (omega (arith, sent))
      ]

  -- A list of jobs that has an id no more often than the rows that were read.
  AtMost : Str → ℕ → Result (List (Job F)) → Type 0
  AtMost id n (err e) = Unit
  AtMost id n (ok js) = jobs_with id js ≤ n

  collect-AtMost :
      (id : Str) (rows : List JobRow)
      → AtMost id (rows_with id rows) (collect env (scan_job env []) rows)
  unfolding AtMost jobs_with
  collect-AtMost id [] = omega arith
  collect-AtMost id (r ∷ rows) =
      add (collect env (scan_job env []) rows) (collect-AtMost id rows)
        (Option-cases (env.request_codec.unmarshal r.request))
    where
      add :
          (rest : Result (List (Job F)))
          → AtMost id (rows_with id rows) rest
          → (env.request_codec.unmarshal r.request ≡ none)
            ⊎ ((request : ProfileRequest F) × (env.request_codec.unmarshal r.request
                  ≡ some request))
          → AtMost id (rows_with id (r ∷ rows)) (elim (scan_job env [] r) [
            | err e ↦ err e
            | ok b ↦ elim rest [ err e ↦ err e | ok bs ↦ ok (b ∷ bs) ]
          ])
      add rest h (inl e) = rw (scan_job, e) tt
      add (ok js) h (inr (request, e)) = rw (scan_job, e) (omega (arith, h))
      add (err m) h (inr (request, e)) = rw (scan_job, e) tt

  list-AtMost :
      (id : Str) (d : Db)
      → IsUnique (index d.jobs)
      → AtMost id 1 (list_queued_jobs env (pos capacity) d).0
  unfolding list_queued_jobs AtMost
  list-AtMost id d u =
      call-holds env (λ r. AtMost id 1 r.0)
        (λ db. (
          collect env (scan_job env []) (take (job_limit env (pos capacity)) (queued_rows db.jobs)),
          db,
        ))
        d (λ e. tt)
        (below
          (collect env (scan_job env []) (take (job_limit env (pos capacity)) (queued_rows d.jobs)))
          (collect-AtMost id (take (job_limit env (pos capacity)) (queued_rows d.jobs))))
    where
      below :
          (r : Result (List (Job F)))
          → AtMost id (rows_with id (take (job_limit env (pos capacity)) (queued_rows d.jobs))) r
          → AtMost id 1 r
      below (err e) h = tt
      below (ok js) h = omega (
        arith,
        h,
        take-rows_with id (job_limit env (pos capacity)) (queued_rows d.jobs),
        queued_rows-rows_with id d.jobs,
        unique-rows_with id d.jobs u,
      )

  start_list-occurs :
      (id : Str) (r : Result (List (Job F)) × System)
      → AtMost id 1 r.0
      → r.1.queue ≡ []
      → occurs id (branch r (λ _ s. s) (λ jobs s. enqueue_all fl env jobs s)).queue ≤ 1
  unfolding AtMost
  start_list-occurs id (err e, s) h empty = rw empty (omega arith)
  start_list-occurs id (ok js, s) h empty =
      let all = enqueue_all-occurs id js s in
      let none_yet : occurs id s.queue ≡ 0 = rw empty refl in omega (arith, all, none_yet, h)

  pub start-occurs :
      (id : Str) (now : ℕ) (s : System)
      → s.queue ≡ []
      → IsUnique (index s.db.jobs)
      → occurs id (start fl env now s).queue ≤ 1
  unfolding start
  start-occurs id now s empty u = elim (Bool-cases s.started) [
    | inl e ↦ rw (e, empty) (omega arith)
    | inr e ↦ rw e (
        let s1 : System = record s { started = true; stopped = false } in
        let s2 = (on_db fl env (recover_stale_running_jobs env now s1.stale_after) s1).1 in
        start_list-occurs id (on_db fl env (list_queued_jobs env (pos capacity)) s2)
          (list-AtMost id s2.db
            ((recover_stale_running_jobs-Keeps env now s1.stale_after s1.db).unique u))
          empty)
  ]
