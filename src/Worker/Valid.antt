-- ===== src/Worker/Valid.antt =====
-- The invariant of the process and its tables, for every order of the manager's methods.
pub mod Create
use data_profiler.Prelude.{
  ℕ, suc, ◌+◌, ◌≤◌, ◌≡◌, refl, sym, ap, ◌∙◌, subst, Bool, true, false, Option, none, some, List, [],
  ◌∷◌, ◌++◌, Str, length, length-append, ltb, All, All-append, Bool-cases, inl, inr, arith,
  if◌then◌else◌,
}
use data_profiler.Prelude.Int.{ℤ, pos}
use data_profiler.Prelude.Float.{Float64}
use data_profiler.Domain.{ProfileRequest, Job}
use data_profiler.Store.{
  Result, ok, err, Env, Db, create_job, update_job, get_job_by_idempotency_key, list_queued_jobs,
  recover_stale_running_jobs,
}
use data_profiler.Store.Index.{index, IsUnique, HasId}
use data_profiler.Store.Keeps.{
  Keeps, HasRow, ListsKnown, create_job-Keeps, create_job-HasRow, update_job-Keeps,
  get_job_by_idempotency_key-Keeps, list_queued_jobs-Keeps, list_queued_jobs-ListsKnown,
  recover_stale_running_jobs-Keeps,
}
use data_profiler.Worker.Transfers.{
  KeepsQueue, KeepsQueue-refl, KeepsQueue-trans, on_db-KeepsQueue, fail_queued_job-KeepsQueue,
  run-KeepsQueue,
}
use data_profiler.Worker.{
  System, Runtime, capacity, branch, on_db, new_manager, enqueue, finish_create, lost_race,
  insert_and_enqueue, create, fail_queued_job, drain, stop, enqueue_all, start, work, work_on, run,
  new_job,
}

-- No two rows have one id or one idempotency key, the channel holds at most its capacity, and every id in
-- it has a row.
pub record IsValid (s : System) : Type 0 where
  pub unique : IsUnique (index s.db.jobs)
  pub bounded : length s.queue ≤ capacity
  pub known : All (λ id. HasId id (index s.db.jobs)) s.queue

-- The two flags do not matter.
pub IsValid-flags :
    {s : System} (runs ended : Bool)
    → IsValid s
    → IsValid (record s { started = runs; stopped = ended })
IsValid-flags runs ended v = record { unique = v.unique; bounded = v.bounded; known = v.known }

AllIds-map :
    {d d' : Db}
    → Keeps d d'
    → (ids : List Str) → All (λ id. HasId id (index d.jobs)) ids
    → All (λ id. HasId id (index d'.jobs)) ids
AllIds-map k [] a = tt
AllIds-map k (id ∷ ids) a = (k.ids id a.0, AllIds-map k ids a.1)

pub KeepsQueue-IsValid : {s s' : System} → KeepsQueue s s' → IsValid s → IsValid s'
KeepsQueue-IsValid {s} {s'} k v = record {
  unique = k.rows.unique v.unique;
  bounded = rw k.queue v.bounded;
  known = rw k.queue (AllIds-map k.rows s.queue v.known);
}

pub enqueue-IsValid :
    (id : Str) (s : System) → HasId id (index s.db.jobs) → IsValid s → IsValid (enqueue id s).1
unfolding enqueue
enqueue-IsValid id s h v = elim (Bool-cases s.stopped) [
  | inl e ↦ rw e (IsValid-flags s.started true v)
  | inr e ↦ elim (Bool-cases (ltb (length s.queue) capacity)) [
    | inl room ↦
        rw (e, room)
          record {
            unique = v.unique;
            bounded = ground (arith, length-append s.queue (id ∷ []));
            known = All-append _ s.queue (id ∷ []) v.known (h, tt);
          }
    | inr full ↦ rw (e, full) (IsValid-flags s.started false v)
  ]
]

pub enqueue-db : (id : Str) (s : System) → (enqueue id s).1.db ≡ s.db
unfolding enqueue
enqueue-db id s = elim (Bool-cases s.stopped) [
  | inl e ↦ rw e refl
  | inr e ↦ elim (Bool-cases (ltb (length s.queue) capacity)) [
    | inl h ↦ rw (e, h) refl
    | inr h ↦ rw (e, h) refl
  ]
]

take_first :
    (id : Str) (ids : List Str) (s : System)
    → s.queue ≡ id ∷ ids
    → IsValid s
    → IsValid (record s { queue = ids })
take_first id ids s q v =
    let all : All (λ id. HasId id (index s.db.jobs)) (id ∷ ids) = rw q at v.known in
    record {
      unique = v.unique;
      bounded = let b : length (id ∷ ids) ≤ capacity = rw q at v.bounded in omega (arith, b);
      known = all.1;
    }

module _ (fl : Float64) (env : Env fl.F) where
  open fl use {F}

  drain-IsValid :
      (now : ℕ) (ids : List Str) (s : System)
      → s.queue ≡ ids
      → IsValid s
      → IsValid (drain fl env now ids s)
  unfolding drain
  drain-IsValid now [] s q v = v
  drain-IsValid now (id ∷ ids) s q v =
      let k = fail_queued_job-KeepsQueue fl env now id (record s { queue = ids }) in
      drain-IsValid now ids _ k.queue (KeepsQueue-IsValid k (take_first id ids s q v))

  pub stop-IsValid : (now : ℕ) (s : System) → IsValid s → IsValid (stop fl env now s)
  unfolding stop
  stop-IsValid now s v = elim (Bool-cases s.started) [
    | inr e ↦ rw e (IsValid-flags false s.stopped v)
    | inl e ↦ elim (Bool-cases s.stopped) [
      | inl h ↦ rw (e, h) (IsValid-flags true true v)
      | inr h ↦ rw (e, h) (drain-IsValid now s.queue _ refl (IsValid-flags true true v))
    ]
  ]

  enqueue_all-IsValid :
      (js : List (Job F)) (s : System)
      → All (λ j. HasId j.id (index s.db.jobs)) js
      → IsValid s
      → IsValid (enqueue_all fl env js s)
  unfolding enqueue_all
  enqueue_all-IsValid [] s a v = v
  enqueue_all-IsValid (j ∷ js) s a v =
      let sent = enqueue-IsValid j.id s a.0 v in
      elim (Bool-cases (enqueue j.id s).0) [
        | inl e ↦ rw e (enqueue_all-IsValid js _ (rw (enqueue-db j.id s) a.1) sent)
        | inr e ↦ rw e sent
      ]

  start_list :
      (r : Result (List (Job F)) × System)
      → ListsKnown env (index r.1.db.jobs) r.0
      → IsValid r.1
      → IsValid (branch r (λ _ s. s) (λ jobs s. enqueue_all fl env jobs s))
  start_list (err e, s) known v = v
  start_list (ok js, s) known v = enqueue_all-IsValid js s known v

  pub start-IsValid : (now : ℕ) (s : System) → IsValid s → IsValid (start fl env now s)
  unfolding start
  start-IsValid now s v = elim (Bool-cases s.started) [
    | inl e ↦ rw e (IsValid-flags true s.stopped v)
    | inr e ↦ rw e (
        let s1 : System = record s { started = true; stopped = false } in
        let s2 = (on_db fl env (recover_stale_running_jobs env now s1.stale_after) s1).1 in
        let kept =
          KeepsQueue-trans
            (on_db-KeepsQueue fl env (recover_stale_running_jobs env now s1.stale_after) s1
              (recover_stale_running_jobs-Keeps env now s1.stale_after s1.db))
            (on_db-KeepsQueue fl env (list_queued_jobs env (pos capacity)) s2
              (list_queued_jobs-Keeps env (pos capacity) s2.db)) in
        start_list (on_db fl env (list_queued_jobs env (pos capacity)) s2)
          (list_queued_jobs-ListsKnown env (pos capacity) s2.db)
          (KeepsQueue-IsValid kept (IsValid-flags true false v)))
  ]

  pub work-IsValid :
      (rt : Runtime fl) (started judged ended : ℕ) (s : System)
      → IsValid s
      → IsValid (work fl env rt started judged ended s)
  unfolding work
  work-IsValid rt started judged ended s v = go s.queue refl
    where
      go : (q : List Str) → s.queue ≡ q → IsValid (work_on fl env rt started judged ended q s)
      go [] e = v
      go (id ∷ ids) e =
          KeepsQueue-IsValid
            (run-KeepsQueue fl env rt started judged ended id (record s { queue = ids }))
            (take_first id ids s e v)
