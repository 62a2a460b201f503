-- ===== src/Worker/Tasks.antt =====
-- internal/worker/manager.go, one statement of the store or one use of the channel or of a flag at a time: the
-- goroutines of the requests, of the workers and of `Stop`, in any order.
pub mod Calls
pub mod Moves
pub mod Started
pub mod Owners
pub mod Keys
pub mod Kept
pub mod Lossless
pub mod Solo
pub mod Answers
mod Tests
use data_profiler.Prelude.{
  ℕ, Bool, true, false, not, ◌&&◌, ◌||◌, Option, none, some, List, [], ◌∷◌, ◌++◌, Str, length, ltb,
  get_elem?, set, replicate, if◌then◌else◌,
}
use data_profiler.Prelude.Float.{Float64}
use data_profiler.Domain.{
  Status, queued, running, completed, failed, ProfileRequest, Job, TableProfile,
}
use data_profiler.Store.{
  Result, ok, err, Env, create_job, update_job, get_job, get_job_by_idempotency_key, save_profile,
  get_previous_profile,
}
use data_profiler.Worker.{
  System, Runtime, capacity, shutting_down, queue_full, cancelled, on_db, new_job, judge,
  with_drift, outcome,
}

-- Where a goroutine stands, before its next use of what is shared, with the variables that are live there.
pub data Task (F : Type 0) : Type 0 where
  -- a request, in Create and in the Enqueue that it calls
  looks_up : Job F → Task F
  checks : Job F → Task F
  inserts : Job F → Task F
  looks_again : Job F → Str → Task F
  announces : Job F → Task F
  sends : Job F → Task F
  withdraws : Job F → Task F
  answered : Result (Job F) → Task F
  -- a worker, in loop and in run
  waits : Task F
  loads : Str → Task F
  begins : Job F → Task F
  profiles : Job F → Task F
  compares : Job F → TableProfile F → Task F
  saves : Job F → TableProfile F → Task F
  settles : Job F → Result (Unit {0}) → Task F
  gone : Task F
  -- Stop, with failQueuedJob
  stops : Task F
  joins : Task F
  drains : Task F
  cancels : Str → Task F
  fails : Job F → Task F
  ended : Task F

-- `if err != nil { ... } else { ... }` after a call of the store.
abbrev pub next :
    {F A : Type 0} → Result A × System → (Str → Task F) → (A → Task F) → Task F × System
next (err e, s) failed_with returned = (failed_with e, s)
next (ok a, s) failed_with returned = (returned a, s)

-- A request begins; the empty key is not looked up.
abbrev pub asks_with : {F : Type 0} → Str → Job F → Task F
asks_with [] j = checks j
asks_with (c ∷ key) j = looks_up j

-- CreateJob has failed.
abbrev pub refused : {F : Type 0} → Str → Job F → Str → Task F
refused [] j e = answered (err e)
refused (c ∷ key) j e = looks_again j e

-- `case id := <-m.jobs` of a worker.
abbrev pub takes : {F : Type 0} → List Str → System → Task F × System
takes [] s = (waits, s)
takes (id ∷ ids) s = (loads id, record s { queue = ids })

-- The same of Stop, and its `default`.
abbrev pub drains_next : {F : Type 0} → List Str → System → Task F × System
drains_next [] s = (ended, s)
drains_next (id ∷ ids) s = (cancels id, record s { queue = ids })

-- `if j.Status != "queued" { return }`
abbrev pub cancels_if : {F : Type 0} → Status → Job F → Task F
cancels_if queued j = fails j
cancels_if _ j = drains

module _ (fl : Float64) (env : Env fl.F) (rt : Runtime fl) where
  open fl use {F}

  abbrev pub profiled : Job F → ℕ → Result (TableProfile F) → Task F
  profiled j now (err e) = settles j (err e)
  profiled j now (ok p) = compares j (judge fl env rt j now p)

  -- The next statement of a goroutine; `now` is what time.Now returns if it is asked.
  unfoldable pub turn : ℕ → Task F → System → Task F × System
  turn now (looks_up j) s =
      next (on_db fl env (get_job_by_idempotency_key env j.idempotency_key) s) (λ _. checks j)
        (λ existing. answered (ok existing))
  turn now (checks j) s = (if s.stopped then answered (err shutting_down) else inserts j, s)
  turn now (inserts j) s =
      next (on_db fl env (create_job env j) s) (λ e. refused j.idempotency_key j e)
        (λ _. announces j)
  turn now (looks_again j e) s =
      next (on_db fl env (get_job_by_idempotency_key env j.idempotency_key) s)
        (λ _. answered (err e)) (λ existing. answered (ok existing))
  turn now (announces j) s = (if s.stopped then withdraws j else sends j, s)
  turn now (sends j) s =
      if ltb (length s.queue) capacity
      then (answered (ok j), record s { queue = s.queue ++ j.id ∷ [] })
      else (withdraws j, s)
  turn now (withdraws j) s =
      next
        (on_db fl env
          (update_job env
            (record j { status = failed; error = queue_full; finished_at = some now }))
          s)
        (λ e. answered (err e)) (λ _. answered (err queue_full))
  turn now waits s = takes s.queue s
  turn now (loads id) s =
      next (on_db fl env (get_job env id) s) (λ _. waits)
        λ j.
          begins
            (record j { status = running; error = []; started_at = some now; finished_at = none })
  turn now (begins j) s = next (on_db fl env (update_job env j) s) (λ _. waits) (λ _. profiles j)
  turn now (profiles j) s = (profiled j now (rt.profile_source j.request), s)
  turn now (compares j q) s =
      let (previous, s') = on_db fl env (get_previous_profile env q.schema q.table) s in
      (saves j (with_drift fl env rt previous q), s')
  turn now (saves j q) s =
      let (r, s') = on_db fl env (save_profile env j.id q) s in (settles j r, s')
  turn now (settles j r) s = (
    waits,
    (on_db fl env (update_job env (record (outcome fl env rt r j) { finished_at = some now })) s).1,
  )
  turn now stops s =
      if not s.started || s.stopped then (ended, s) else (joins, record s { stopped = true })
  turn now drains s = drains_next s.queue s
  turn now (cancels id) s =
      next (on_db fl env (get_job env id) s) (λ _. drains) (λ j. cancels_if j.status j)
  turn now (fails j) s = (
    drains,
    (on_db fl env
        (update_job env (record j { status = failed; error = cancelled; finished_at = some now }))
        s).1,
  )
  turn now t s = (t, s)

  -- `m.wg.Wait()`
  abbrev pub is_working : Task F → Bool
  is_working waits = true
  is_working (loads id) = true
  is_working (begins j) = true
  is_working (profiles j) = true
  is_working (compares j q) = true
  is_working (saves j q) = true
  is_working (settles j r) = true
  is_working _ = false

  abbrev pub is_idle : List (Task F) → Bool
  is_idle [] = true
  is_idle (t ∷ ts) = not (is_working t) && is_idle ts

  abbrev pub turn_among : List (Task F) → ℕ → Task F → System → Task F × System
  turn_among ts now joins s = (if is_idle ts then drains else joins, s)
  turn_among ts now t s = turn now t s

  pub record Pool : Type 0 where
    pub system : System
    pub tasks : List (Task F)

  -- What happens next: a request comes with an id and a time, Stop is called, goroutine `i` makes its next
  -- step, or the worker `i` sees at its select that the context is done.
  pub data Event : Type 0 where
    arrives : Str → ℕ → ProfileRequest F → Str → Event
    calls_stop : Event
    turns : ℕ → ℕ → Event
    quits : ℕ → Event

  abbrev pub put_back : ℕ → List (Task F) → Task F × System → Pool
  put_back i ts (t, s) = record { system = s; tasks = set ts i t }

  abbrev pub turn_at : ℕ → ℕ → Option (Task F) → Pool → Pool
  turn_at i now none p = p
  turn_at i now (some t) p = put_back i p.tasks (turn_among p.tasks now t p.system)

  abbrev pub quit : Bool → Task F → Task F
  quit true waits = gone
  quit _ t = t

  abbrev pub quit_at : ℕ → Option (Task F) → Pool → Pool
  quit_at i none p = p
  quit_at i (some t) p = record p { tasks = set p.tasks i (quit p.system.stopped t) }

  unfoldable pub happens : Event → Pool → Pool
  happens (arrives id now req key) p = record p {
    tasks = p.tasks ++ asks_with key (new_job fl env id now req key) ∷ [];
  }
  happens calls_stop p = record p { tasks = p.tasks ++ stops ∷ [] }
  happens (turns i now) p = turn_at i now (get_elem? p.tasks i) p
  happens (quits i) p = quit_at i (get_elem? p.tasks i) p

  unfoldable pub play : List Event → Pool → Pool
  play [] p = p
  play (e ∷ es) p = play es (happens e p)

  -- The manager after Start, with its workers.
  abbrev pub launch : System → Pool
  launch s = record { system = s; tasks = replicate s.workers waits }
