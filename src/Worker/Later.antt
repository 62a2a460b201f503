-- ===== src/Worker/Later.antt =====
-- What any number of the manager's methods leave in the table: every id and every key that was there.
use data_profiler.Prelude.{
  ℕ, zero, suc, ◌≡◌, sym, subst, true, false, [], ◌∷◌, List, Str, Bool-cases, inl, inr,
}
use data_profiler.Prelude.Int.{pos}
use data_profiler.Prelude.Float.{Float64}
use data_profiler.Store.{Result, ok, err, Env, Db, list_queued_jobs, recover_stale_running_jobs}
use data_profiler.Store.Keeps.{Keeps, list_queued_jobs-Keeps, recover_stale_running_jobs-Keeps}
use data_profiler.Domain.{Job, ProfileRequest}
use data_profiler.Worker.{
  System, Runtime, capacity, branch, on_db, new_job, new_manager, enqueue_all, create, start, stop,
  work, work_on,
}
use data_profiler.Worker.Transfers.{run-KeepsQueue}
use data_profiler.Worker.Valid.{enqueue-db}
use data_profiler.Worker.Restart.{enqueue_all-db}
use data_profiler.Worker.Reach.{Step, creates, enqueues, starts, works, stops, restarts}
use data_profiler.Worker.Tasks.{Task, waits, turn_among, asks_with}
use data_profiler.Worker.Tasks.Owners.{turn_among-Moves}
use data_profiler.Worker.Tasks.Solo.{alone}
use data_profiler.Worker.Tasks.Solo.Methods.{alone-methods}

Keeps-refl : (d : Db) → Keeps d d
Keeps-refl d = record { unique = λ u. u; ids = λ id h. h; entries = λ e h. h }

Keeps-trans : {d e f : Db} → Keeps d e → Keeps e f → Keeps d f
Keeps-trans h k = record {
  unique = λ u. k.unique (h.unique u);
  ids = λ id i. k.ids id (h.ids id i);
  entries = λ e i. k.entries e (h.entries e i);
}

Keeps-of_same : {d d' : Db} → d' ≡ d → Keeps d d'
Keeps-of_same {d} {d'} e = subst (Keeps d) (sym e) (Keeps-refl d)

module _ (fl : Float64) (env : Env fl.F) where
  open fl use {F}

  alone-Keeps :
      (rt : Runtime fl) (clock : Task F → ℕ) (n : ℕ) (t : Task F) (s : System)
      → Keeps s.db (alone fl env rt clock n t s).1.db
  unfolding alone
  alone-Keeps rt clock zero t s = Keeps-refl s.db
  alone-Keeps rt clock (suc n) waits s = Keeps-refl s.db
  alone-Keeps rt clock (suc n) t s =
      let r = turn_among fl env rt [] (clock t) t s in
      Keeps-trans (turn_among-Moves fl env rt [] (clock t) t s).rows
        (alone-Keeps rt clock n r.0 r.1)

  -- A worker for which no source can be read; Create and Stop do not use it.
  abbrev no_runtime : Runtime fl
  no_runtime = record { profile_source = λ r. err []; header_order = []; drift_order = λ m. m }

  pub create-Keeps :
      (id : Str) (now later : ℕ) (req : ProfileRequest F) (key : Str) (s : System)
      → Keeps s.db (create fl env id now later req key s).1.db
  create-Keeps id now later req key s =
      subst (λ r. Keeps s.db r.1.db)
        (alone-methods fl env no_runtime id id now later 0 0 0 req key s).0
        (alone-Keeps no_runtime (λ t. later) 6 (asks_with key (new_job fl env id now req key)) s)

  stop-Keeps : (now : ℕ) (req : ProfileRequest F) (s : System) → Keeps s.db (stop fl env now s).db
  stop-Keeps now req s =
      subst (λ r. Keeps s.db r.1.db) (alone-methods fl env no_runtime [] [] 0 0 0 0 now req [] s).2
        (alone-Keeps no_runtime (λ t. now) _ _ s)

  listed-Keeps :
      (r : Result (List (Job F)) × System)
      → Keeps r.1.db (branch r (λ _ s. s) (λ jobs s. enqueue_all fl env jobs s)).db
  listed-Keeps (err e, s) = Keeps-refl s.db
  listed-Keeps (ok js, s) = Keeps-of_same (enqueue_all-db fl env js s)

  start-Keeps : (now : ℕ) (s : System) → Keeps s.db (start fl env now s).db
  unfolding start
  start-Keeps now s = elim (Bool-cases s.started) [
    | inl e ↦ rw e (Keeps-refl s.db)
    | inr e ↦ rw e (
        let s1 : System = record s { started = true; stopped = false } in
        let s2 = (on_db fl env (recover_stale_running_jobs env now s1.stale_after) s1).1 in
        Keeps-trans (recover_stale_running_jobs-Keeps env now s1.stale_after s1.db) (
          Keeps-trans (list_queued_jobs-Keeps env (pos capacity) s2.db)
            (listed-Keeps (on_db fl env (list_queued_jobs env (pos capacity)) s2))))
  ]

  work-Keeps :
      (rt : Runtime fl) (began judged finished : ℕ) (s : System)
      → Keeps s.db (work fl env rt began judged finished s).db
  unfolding work
  work-Keeps rt began judged finished s = go s.queue
    where
      go : (q : List Str) → Keeps s.db (work_on fl env rt began judged finished q s).db
      go [] = Keeps-refl s.db
      go (id ∷ ids) =
          (run-KeepsQueue fl env rt began judged finished id (record s { queue = ids })).rows

  -- Any number of steps.
  pub data Steps : System → System → Type 0 where
    done : {s : System} → Steps s s
    after : {s t u : System} → Steps s t → Step fl env t u → Steps s u

  module _ (req : ProfileRequest F) where
    Step-Keeps : {s s' : System} → Step fl env s s' → Keeps s.db s'.db
    unfolding new_manager
    Step-Keeps (creates {s} id now later req' key) = create-Keeps id now later req' key s
    Step-Keeps (enqueues {s} id known) = Keeps-of_same (enqueue-db id s)
    Step-Keeps (starts {s} now) = start-Keeps now s
    Step-Keeps (works {s} rt began judged finished) = work-Keeps rt began judged finished s
    Step-Keeps (stops {s} now) = stop-Keeps now req s
    Step-Keeps (restarts {s} n stale_after) = Keeps-refl s.db

    pub Steps-Keeps : {s s' : System} → Steps s s' → Keeps s.db s'.db
    Steps-Keeps (done {s}) = Keeps-refl s.db
    Steps-Keeps (after steps step) = Keeps-trans (Steps-Keeps steps) (Step-Keeps step)
