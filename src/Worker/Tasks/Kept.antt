-- ===== src/Worker/Tasks/Kept.antt =====
-- What one statement of a goroutine does to the jobs that wait, when no call of the store fails: it keeps each of
-- them in the channel or in hands.
mod Rows
pub mod Steps
use data_profiler.Prelude.{
  ℕ, suc, ◌+◌, ◌≤◌, ◌≡◌, ◌⊎◌, refl, sym, ◌∙◌, subst, inl, inr, true, false, not, ◌||◌, Option, none,
  some, List, [], ◌∷◌, ◌++◌, Str, str_eq, str_eq_iff, length, ltb, All-append, Bool-cases,
  Option-cases, arith,
}
use data_profiler.Prelude.Float.{Float64}
use data_profiler.Domain.{
  Status, queued, running, completed, failed, ProfileRequest, Job, TableProfile,
}
use data_profiler.Store.Tables.{JobRow, find_job, find_key, is_queued, update_row, has_job, has_key}
use data_profiler.Store.{
  Result, ok, err, Env, Db, null_string, insert_job, create_job, save_profile, insert_profile,
  scan_found, text_or_empty,
}
use data_profiler.Store.Calls.{
  read_as, NoFault, new_row, scan_found-lem, get_job-lem, update_job-lem,
  get_job_by_idempotency_key-lem, get_previous_profile-lem, find_job-id,
}
use data_profiler.Store.Keeps.{call-holds, insert_profile-same}
use data_profiler.Worker.Shutdown.{AllReadable, is_waiting, find_job-All, update_row-AllReadable}
use data_profiler.Worker.{
  System, Runtime, capacity, shutting_down, queue_full, cancelled, judge, on_db,
}
use data_profiler.Worker.Tasks.Moves.{occurs, occurs-append, holds}
use data_profiler.Worker.Tasks.{
  Task, looks_up, checks, inserts, looks_again, announces, sends, withdraws, answered, waits, loads,
  begins, profiles, compares, saves, settles, stops, joins, drains, cancels, fails, ended, next,
  refused, takes, drains_next, cancels_if, profiled, turn, turn_among, is_idle,
}
use data_profiler.Worker.Tasks.Kept.Rows.{waiting-append}
use data_profiler.Worker.Tasks.Kept.Steps.{
  minds, Tends, same_rows, forgets, closes, rewrites, next_reads,
}

module _ (fl : Float64) (env : Env fl.F) where
  open fl use {F}

  -- What CreateJob does to the rows.
  Made : Job F → List JobRow → Result (Unit {0}) × Db → Type 0
  Made j rows (ok u, d) =
      (b : Str) × (env.request_codec.marshal j.request ≡ some b)
      × (d.jobs ≡ rows ++ new_row env j b ∷ [])
  Made j rows (err e, d) = d.jobs ≡ rows

  insert_job-Made : (j : Job F) (d : Db) → Made j d.jobs (insert_job env j d)
  unfolding insert_job Made
  insert_job-Made j d = elim (Option-cases (env.request_codec.marshal j.request)) [
    | inl e ↦ rw (insert_job, e) refl
    | inr (b, e) ↦
        elim (Bool-cases (has_job j.id d.jobs || has_key (null_string j.idempotency_key) d.jobs)) [
          | inl h ↦ rw (insert_job, e, h) refl
          | inr h ↦ rw (insert_job, e, h) (b, e, refl)
        ]
  ]

  create_job-Made : (j : Job F) (d : Db) → Made j d.jobs (create_job env j d)
  unfolding create_job Made
  create_job-Made j d =
      call-holds env (Made j d.jobs) (insert_job env j) d (λ e. refl)
        (insert_job-Made j (record d { calls = suc d.calls }))

  save_profile-same :
      (id : Str) (p : TableProfile F) (d : Db) → (save_profile env id p d).1.jobs ≡ d.jobs
  unfolding save_profile
  save_profile-same id p d =
      call-holds env (λ r. r.1.jobs ≡ d.jobs) (insert_profile env id p) d (λ e. refl)
        (insert_profile-same env id p (record d { calls = suc d.calls }))

  -- A request that was written can be read.
  abbrev pub ReadsBack : Type 0
  ReadsBack =
      (req : ProfileRequest F) (b : Str)
      → env.request_codec.marshal req ≡ some b
      → (req' : ProfileRequest F) × (env.request_codec.unmarshal b ≡ some req')

  inserts-Tends :
      (trips : ReadsBack) (j : Job F) (s : System) (r : Result (Unit {0}) × System)
      → r.1.queue ≡ s.queue
      → Made j s.db.jobs (r.0, r.1.db)
      → Tends fl env (inserts j) s (next r (λ e. refused j.idempotency_key j e) (λ _. announces j))
  unfolding Made
  inserts-Tends trips j s (err e, s') queue rows = go j.idempotency_key
    where
      go : (key : Str) → Tends fl env (inserts j) s (refused key j e, s')
      go [] =
          same_rows fl env (inserts j) (answered (err e)) s s' rows (λ x. rw queue (omega arith))
      go (c ∷ key) =
          same_rows fl env (inserts j) (looks_again j e) s s' rows (λ x. rw queue (omega arith))
  inserts-Tends trips j s (ok u, s') queue (b, written_as, rows) = record {
    readable = λ a.
        rw rows
          (All-append _ s.db.jobs (new_row env j b ∷ []) a (trips j.request b written_as, tt));
    waiting = λ x h. elim (waiting-append x s.db.jobs (new_row env j b) (rw rows at h)) [
      | inl own ↦ inl (rw own (omega arith))
      | inr before ↦ inr (before, rw queue (omega arith))
    ];
  }

  takes-Tends : (q : List Str) (s : System) → s.queue ≡ q → Tends fl env waits s (takes q s)
  takes-Tends [] s e = same_rows fl env waits waits s s refl (λ x. omega arith)
  takes-Tends (id ∷ ids) s e =
      same_rows fl env waits (loads id) s (record s { queue = ids }) refl (λ x. rw e (omega arith))

  drains_next-Tends :
      (q : List Str) (s : System) → s.queue ≡ q → Tends fl env drains s (drains_next q s)
  drains_next-Tends [] s e = same_rows fl env drains ended s s refl (λ x. omega arith)
  drains_next-Tends (id ∷ ids) s e =
      same_rows fl env drains (cancels id) s (record s { queue = ids }) refl
        (λ x. rw e (omega arith))

  abbrev begun : ℕ → Job F → Task F
  begun now j =
      begins (record j { status = running; error = []; started_at = some now; finished_at = none })

  loads-Tends :
      (now : ℕ) (id : Str) (s s' : System) (found : Option JobRow)
      → AllReadable fl env s.db.jobs
      → s'.queue ≡ s.queue
      → s'.db.jobs ≡ s.db.jobs
      → find_job id s.db.jobs ≡ found
      → Tends fl env (loads id) s (next (scan_found env [] found, s') (λ _. waits) (begun now))
  loads-Tends now id s s' none a queue rows at =
      forgets fl env id (loads id) waits s s' rows (rw at refl)
        (λ x other. rw (other, queue) (omega arith))
  loads-Tends now id s s' (some row) a queue rows at =
      let (request, parsed) = find_job-All _ id s.db.jobs row at a in
      let same = find_job-id id s.db.jobs row at in
      rw (scan_found-lem env [] row request parsed) (go (read_as env [] row request) same)
    where
      go : (j : Job F) → j.id ≡ id → Tends fl env (loads id) s (begun now j, s')
      go j same =
          same_rows fl env (loads id) (begun now j) s s' rows (λ x. rw (same, queue) (omega arith))

  cancels-Tends :
      (id : Str) (s s' : System) (found : Option JobRow)
      → AllReadable fl env s.db.jobs
      → s'.queue ≡ s.queue
      → s'.db.jobs ≡ s.db.jobs
      → find_job id s.db.jobs ≡ found
      → Tends fl env
          (cancels id)
          s
          (next (scan_found env [] found, s') (λ _. drains) (λ j. cancels_if j.status j))
  cancels-Tends id s s' none a queue rows at =
      forgets fl env id (cancels id) drains s s' rows (rw at refl)
        (λ x other. rw (other, queue) (omega arith))
  cancels-Tends id s s' (some row) a queue rows at =
      let (request, parsed) = find_job-All _ id s.db.jobs row at a in
      let same = find_job-id id s.db.jobs row at in
      rw (scan_found-lem env [] row request parsed)
        (go (read_as env [] row request) row.status same refl)
    where
      out :
          (status : Status)
          → row.status ≡ status
          → is_queued status ≡ false
          → is_waiting (find_job id s.db.jobs) ≡ false
      out status e shut = rw (at, e) shut

      go :
          (j : Job F) (status : Status)
          → j.id ≡ id
          → row.status ≡ status
          → Tends fl env (cancels id) s (cancels_if status j, s')
      go j queued same e =
          same_rows fl env (cancels id) (fails j) s s' rows (λ x. rw (same, queue) (omega arith))
      go j running same e =
          forgets fl env id (cancels id) drains s s' rows (out running e refl)
            (λ x other. rw (other, queue) (omega arith))
      go j completed same e =
          forgets fl env id (cancels id) drains s s' rows (out completed e refl)
            (λ x other. rw (other, queue) (omega arith))
      go j failed same e =
          forgets fl env id (cancels id) drains s s' rows (out failed e refl)
            (λ x other. rw (other, queue) (omega arith))

  module _ (rt : Runtime fl) (fine : NoFault env) (trips : ReadsBack) where
    -- UpdateJob at the end of a worker's job.
    settles-Tends :
        (now : ℕ) (j : Job F) (r : Result (Unit {0})) (s : System)
        → Tends fl env (settles j r) s (turn fl env rt now (settles j r) s)
    unfolding turn
    settles-Tends now j (ok u) s =
        let j' : Job F = record j { status = completed; finished_at = some now } in
        rw (update_job-lem env fine) (
          closes fl env (settles j (ok u)) waits j' s _ refl refl refl
            (λ x other. rw other (omega arith)))
    settles-Tends now j (err e) s =
        let j' : Job F = record j { status = failed; error = e; finished_at = some now } in
        rw (update_job-lem env fine) (
          closes fl env (settles j (err e)) waits j' s _ refl refl refl
            (λ x other. rw other (omega arith)))

    profiles-Tends :
        (now : ℕ) (j : Job F) (s : System) (r : Result (TableProfile F))
        → Tends fl env (profiles j) s (profiled fl env rt j now r, s)
    profiles-Tends now j s (err e) =
        same_rows fl env (profiles j) (settles j (err e)) s s refl (λ x. omega arith)
    profiles-Tends now j s (ok p) =
        same_rows fl env (profiles j) (compares j (judge fl env rt j now p)) s s refl
          (λ x. omega arith)

    pub turn-Tends :
        (ts : List (Task F)) (now : ℕ) (t : Task F) (s : System)
        → AllReadable fl env s.db.jobs
        → Tends fl env t s (turn_among fl env rt ts now t s)
    unfolding turn
    turn-Tends ts now (looks_up j) s a = rw (get_job_by_idempotency_key-lem env fine) (
        next_reads fl env (looks_up j) s (record s { db = record s.db { calls = suc s.db.calls } })
          (scan_found env j.idempotency_key (find_key j.idempotency_key s.db.jobs)) (λ _. checks j)
          (λ existing. answered (ok existing)) refl refl refl)
    turn-Tends ts now (checks j) s a = elim (Bool-cases s.stopped) [
      | inl e ↦
          rw e
            (same_rows fl env (checks j) (answered (err shutting_down)) _ _ refl (λ x. omega arith))
      | inr e ↦ rw e (same_rows fl env (checks j) (inserts j) _ _ refl (λ x. omega arith))
    ]
    turn-Tends ts now (inserts j) s a =
        inserts-Tends trips j s (on_db fl env (create_job env j) s) refl (create_job-Made j s.db)
    turn-Tends ts now (looks_again j e) s a = rw (get_job_by_idempotency_key-lem env fine) (
        next_reads fl env (looks_again j e) s
          (record s { db = record s.db { calls = suc s.db.calls } })
          (scan_found env j.idempotency_key (find_key j.idempotency_key s.db.jobs))
          (λ _. answered (err e)) (λ existing. answered (ok existing)) refl refl refl)
    turn-Tends ts now (announces j) s a = elim (Bool-cases s.stopped) [
      | inl e ↦ rw e (same_rows fl env (announces j) (withdraws j) _ _ refl (λ x. omega arith))
      | inr e ↦ rw e (same_rows fl env (announces j) (sends j) _ _ refl (λ x. omega arith))
    ]
    turn-Tends ts now (sends j) s a = elim (Bool-cases (ltb (length s.queue) capacity)) [
      | inl e ↦ rw e (
          same_rows fl env (sends j) (answered (ok j)) _ _ refl
            (λ x. omega (arith, occurs-append x s.queue (j.id ∷ []))))
      | inr e ↦ rw e (same_rows fl env (sends j) (withdraws j) _ _ refl (λ x. omega arith))
    ]
    turn-Tends ts now (withdraws j) s a =
        let j' : Job F = record j { status = failed; error = queue_full; finished_at = some now } in
        rw (update_job-lem env fine) (
          closes fl env (withdraws j) (answered (err queue_full)) j' s _ refl refl refl
            (λ x other. rw other (omega arith)))
    turn-Tends ts now waits s a = takes-Tends s.queue s refl
    turn-Tends ts now (loads id) s a =
        rw (get_job-lem env fine) (loads-Tends now id s _ (find_job id s.db.jobs) a refl refl refl)
    turn-Tends ts now (begins j) s a =
        rw (update_job-lem env fine)
          (rewrites fl env (begins j) (profiles j) j s _ refl refl refl refl)
    turn-Tends ts now (profiles j) s a = profiles-Tends now j s (rt.profile_source j.request)
    turn-Tends ts now (compares j q) s a =
        rw (get_previous_profile-lem env fine)
          (same_rows fl env (compares j q) _ s _ refl (λ x. omega arith))
    turn-Tends ts now (saves j q) s a =
        let r = on_db fl env (save_profile env j.id q) s in
        same_rows fl env (saves j q) (settles j r.0) s r.1 (save_profile-same j.id q s.db)
          (λ x. omega arith)
    turn-Tends ts now (settles j r) s a = settles-Tends now j r s
    turn-Tends ts now stops s a = elim (Bool-cases (not s.started || s.stopped)) [
      | inl e ↦ rw e (same_rows fl env stops ended _ _ refl (λ x. omega arith))
      | inr e ↦ rw e (same_rows fl env stops joins _ _ refl (λ x. omega arith))
    ]
    turn-Tends ts now joins s a = elim (Bool-cases (is_idle fl env rt ts)) [
      | inl e ↦ rw e (same_rows fl env joins drains _ _ refl (λ x. omega arith))
      | inr e ↦ rw e (same_rows fl env joins joins _ _ refl (λ x. omega arith))
    ]
    turn-Tends ts now drains s a = drains_next-Tends s.queue s refl
    turn-Tends ts now (cancels id) s a =
        rw (get_job-lem env fine) (cancels-Tends id s _ (find_job id s.db.jobs) a refl refl refl)
    turn-Tends ts now (fails j) s a =
        let j' : Job F = record j { status = failed; error = cancelled; finished_at = some now } in
        rw (update_job-lem env fine)
          (closes fl env (fails j) drains j' s _ refl refl refl (λ x other. rw other (omega arith)))
    turn-Tends ts now t s a = same_rows fl env t t s s refl (λ x. omega arith)
