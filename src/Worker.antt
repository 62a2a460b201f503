-- ===== src/Worker.antt =====
-- internal/worker/manager.go: the manager of profiling jobs. Each method is one function of the state
-- of the process and the metadata database; logging is left out.
pub mod Samples
pub mod Tasks
pub mod Run
pub mod Shutdown
pub mod Failures
pub mod Waiting
pub mod Restart
pub mod Progress
pub mod Idempotency
pub mod Race
pub mod Transfers
pub mod Valid
pub mod Reach
pub mod Later
mod Tests
use data_profiler.Prelude.{
  ℕ, suc, Bool, true, false, not, Option, none, some, List, [], ◌∷◌, ◌++◌, Str, lit, str_eq, length,
  ltb, if◌then◌else◌,
}
use data_profiler.Prelude.Int.{ℤ, pos, pos_part, leb_ℤ}
use data_profiler.Prelude.Float.{Float64}
use data_profiler.Domain.{
  Status, queued, running, completed, failed, ProfileRequest, Job, ColumnProfile, TableProfile,
}
use data_profiler.Pii.{HeaderRule, detect_profile}
use data_profiler.Quality.{evaluate}
use data_profiler.Drift.{Columns, compare}
use data_profiler.Store.{
  Result, ok, err, Env, Db, half_hour, create_job, update_job, get_job, get_job_by_idempotency_key,
  list_queued_jobs, recover_stale_running_jobs, save_profile, get_previous_profile,
}

-- The channel `jobs` holds at most this many ids.
abbrev pub capacity : ℕ
capacity = 1000

pub record System : Type 0 where
  pub db : Db
  pub queue : List Str
  pub workers : ℕ
  pub stale_after : ℤ
  pub started : Bool
  pub stopped : Bool

abbrev pub shutting_down : Str
shutting_down = lit "profiler is shutting down"

abbrev pub queue_full : Str
queue_full = lit "job queue is full; retry later"

abbrev pub cancelled : Str
cancelled = lit "job cancelled during profiler shutdown"

-- `n` workers, at least one.
unfoldable pub new_manager : Db → ℤ → ℤ → System
new_manager db n stale_after = record {
  db = db;
  queue = [];
  workers = if leb_ℤ n (pos 0) then 1 else pos_part n;
  stale_after = if leb_ℤ stale_after (pos 0) then half_hour else stale_after;
  started = false;
  stopped = false;
}

-- `select { case m.jobs <- id: ... default: ... }`
unfoldable pub enqueue : Str → System → Bool × System
enqueue id s =
    if s.stopped
    then (false, s)
    else if ltb (length s.queue) capacity
    then (true, record s { queue = s.queue ++ id ∷ [] })
    else (false, s)

-- What a job's run takes from outside the store: the source's profile (adapters.Open and
-- ProfileTable), and the orders in which Go visits its maps.
pub record Runtime (fl : Float64) : Type 0 where
  pub profile_source : ProfileRequest fl.F → Result (TableProfile fl.F)
  pub header_order : List HeaderRule
  pub drift_order : Columns fl → Columns fl

-- `if err != nil { ... } else { ... }` after a call of the store.
abbrev pub branch : {A B : Type 0} → Result A × System → (Str → System → B) → (A → System → B) → B
branch (err e, s) failed_with returned = failed_with e s
branch (ok a, s) failed_with returned = returned a s

module _ (fl : Float64) (env : Env fl.F) where
  open fl use {F}

  abbrev pub on_db : {A : Type 0} → (Db → Result A × Db) → System → Result A × System
  on_db op s = let (r, db) = op s.db in (r, record s { db = db })

  abbrev pub new_job : Str → ℕ → ProfileRequest F → Str → Job F
  new_job id now req key = record {
    id = id;
    status = queued;
    error = [];
    request = req;
    idempotency_key = key;
    created_at = now;
    started_at = none;
    finished_at = none;
  }

  -- The last part of `Create`: the new row's id goes to the channel, or the row is marked failed.
  abbrev pub finish_create : Job F → ℕ → Bool × System → Result (Job F) × System
  finish_create j later (true, s) = (ok j, s)
  finish_create j later (false, s) =
      branch
        (on_db
          (update_job env
            (record j { status = failed; error = queue_full; finished_at = some later }))
          s)
        (λ e s'. (err e, s')) (λ _ s'. (err queue_full, s'))

  -- The second lookup, when the insertion failed.
  abbrev pub lost_race : Str → Str → System → Result (Job F) × System
  lost_race [] e s = (err e, s)
  lost_race (c ∷ key) e s =
      branch (on_db (get_job_by_idempotency_key env (c ∷ key)) s) (λ _ s'. (err e, s'))
        (λ existing s'. (ok existing, s'))

  unfoldable pub insert_and_enqueue : Job F → ℕ → System → Result (Job F) × System
  insert_and_enqueue j later s =
      if s.stopped
      then (err shutting_down, s)
      else branch (on_db (create_job env j) s) (λ e s'. lost_race j.idempotency_key e s')
          (λ _ s'. finish_create j later (enqueue j.id s'))

  -- `id`, `now` and `later` are what uuid.NewString and time.Now return.
  unfoldable pub create : Str → ℕ → ℕ → ProfileRequest F → Str → System → Result (Job F) × System
  create id now later req [] s = insert_and_enqueue (new_job id now req []) later s
  create id now later req (c ∷ key) s =
      branch (on_db (get_job_by_idempotency_key env (c ∷ key)) s)
        (λ _ s'. insert_and_enqueue (new_job id now req (c ∷ key)) later s')
        (λ existing s'. (ok existing, s'))

  unfoldable pub fail_if_queued : ℕ → Job F → Status → System → System
  fail_if_queued now j queued s =
      (on_db
        (update_job env (record j { status = failed; error = cancelled; finished_at = some now }))
        s).1
  fail_if_queued now j _ s = s

  unfoldable pub fail_queued_job : ℕ → Str → System → System
  fail_queued_job now id s =
      branch (on_db (get_job env id) s) (λ _ s'. s') (λ j s'. fail_if_queued now j j.status s')

  -- The last loop of `Stop`, over what is left in the channel.
  unfoldable pub drain : ℕ → List Str → System → System
  drain now [] s = s
  drain now (id ∷ ids) s = drain now ids (fail_queued_job now id (record s { queue = ids }))

  -- No worker runs any more when the loop begins.
  unfoldable pub stop : ℕ → System → System
  stop now s =
      if not s.started
      then s
      else if s.stopped
      then s
      else drain now s.queue (record s { stopped = true })

  -- The recovered jobs go to the channel until one is refused.
  unfoldable pub enqueue_all : List (Job F) → System → System
  enqueue_all [] s = s
  enqueue_all (j ∷ js) s =
      let (sent, s') = enqueue j.id s in let rest = enqueue_all js s' in if sent then rest else s'

  unfoldable pub start : ℕ → System → System
  start now s =
      if s.started
      then s
      else let s1 = record s { started = true; stopped = false } in
        let s2 = (on_db (recover_stale_running_jobs env now s1.stale_after) s1).1 in
        branch (on_db (list_queued_jobs env (pos capacity)) s2) (λ _ s3. s3)
          (λ jobs s3. enqueue_all jobs s3)

  module _ (rt : Runtime fl) where
    abbrev pub annotate_column : ColumnProfile F → ColumnProfile F
    annotate_column c =
        let d = detect_profile fl rt.header_order c.name c.data_type c.top_values in
        record c { pii = d.label; pii_confidence = d.confidence }

    abbrev pub annotate_columns : List (ColumnProfile F) → List (ColumnProfile F)
    annotate_columns [] = []
    annotate_columns (c ∷ columns) = annotate_column c ∷ annotate_columns columns

    -- The profile with its PII labels, its quality report and its time.
    unfoldable pub judge : Job F → ℕ → TableProfile F → TableProfile F
    judge j now p =
        let q = record p { columns = annotate_columns p.columns } in
        record q { quality = evaluate fl q j.request.quality_rules; created_at = now }

    abbrev pub with_drift : Result (TableProfile F) → TableProfile F → TableProfile F
    with_drift (ok previous) p = record p { drift = some (compare fl rt.drift_order previous p) }
    with_drift (err _) p = p

    -- The profile of the source, judged, compared with the one before and saved.
    unfoldable pub save_profiled :
        Job F → ℕ → Result (TableProfile F) → System → Result (Unit {0}) × System
    save_profiled j now (err e) s = (err e, s)
    save_profiled j now (ok p) s =
        let q = judge j now p in
        let (previous, s') = on_db (get_previous_profile env q.schema q.table) s in
        on_db (save_profile env j.id (with_drift previous q)) s'

    unfoldable pub profile_and_save : Job F → ℕ → System → Result (Unit {0}) × System
    profile_and_save j now s = save_profiled j now (rt.profile_source j.request) s

    abbrev pub outcome : Result (Unit {0}) → Job F → Job F
    outcome (ok _) j = record j { status = completed }
    outcome (err e) j = record j { status = failed; error = e }

    -- The end of `run`: the outcome and the time are written to the job's row.
    abbrev pub settle : Job F → ℕ → Result (Unit {0}) × System → System
    settle j ended (r, s) =
        (on_db (update_job env (record (outcome r j) { finished_at = some ended })) s).1

    -- `started`, `judged` and `ended` are the times that time.Now returns.
    unfoldable pub run : ℕ → ℕ → ℕ → Str → System → System
    run started judged ended id s =
        branch (on_db (get_job env id) s) (λ _ s1. s1)
          λ found s1.
            let j = record found {
              status = running;
              error = [];
              started_at = some started;
              finished_at = none;
            } in
            branch (on_db (update_job env j) s1) (λ _ s2. s2)
              λ _ s2. settle j ended (profile_and_save j judged s2)

    -- One round of `loop`: a worker takes the oldest id from the channel and runs its job.
    abbrev pub work_on : ℕ → ℕ → ℕ → List Str → System → System
    work_on started judged ended [] s = s
    work_on started judged ended (id ∷ ids) s =
        run started judged ended id (record s { queue = ids })

    unfoldable pub work : ℕ → ℕ → ℕ → System → System
    work started judged ended s = work_on started judged ended s.queue s
