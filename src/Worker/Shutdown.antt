-- ===== src/Worker/Shutdown.antt =====
-- What `Stop` leaves in the channel and in the table.
use data_profiler.Prelude.{
  ℕ, suc, ◌≡◌, refl, sym, ap, ◌∙◌, subst, Bool, true, false, Option, none, some, List, [], ◌∷◌, Str,
  str_eq, str_eq_iff, All, Bool-cases, Option-cases, inl, inr,
}
use data_profiler.Prelude.Float.{Float64}
use data_profiler.Domain.{Status, queued, running, completed, failed, ProfileRequest, Job}
use data_profiler.Store.Tables.{JobRow, find_job, is_queued, update_row}
use data_profiler.Store.{kept, Env}
use data_profiler.Store.Calls.{
  NoFault, scan_found-lem, get_job-lem, update_job-lem, find_job-update_row,
  find_job-update_row_other, find_job-id,
}
use data_profiler.Worker.{System, fail_queued_job, fail_if_queued, drain, stop, enqueue, cancelled}

-- The job of the id waits for a worker.
abbrev pub is_waiting : Option JobRow → Bool
is_waiting none = false
is_waiting (some r) = is_queued r.status

pub find_job-All :
    (P : JobRow → Type 0) (id : Str) (rows : List JobRow) (r : JobRow)
    → find_job id rows ≡ some r
    → All P rows
    → P r
unfolding find_job
find_job-All P id [] r h a = cc h
find_job-All P id (q ∷ rows) r h a = elim (Bool-cases (str_eq q.id id)) [
  | inl e ↦ let same = rw e at h in subst (λ o. elim o [ none ↦ Unit {0} | some x ↦ P x ]) same a.0
  | inr e ↦ find_job-All P id rows r (rw e at h) a.1
]

module _ (fl : Float64) (env : Env fl.F) where
  -- Every row's request can be read.
  abbrev pub AllReadable : List JobRow → Type 0
  AllReadable = All (λ r.
      (request : ProfileRequest fl.F) × (env.request_codec.unmarshal r.request ≡ some request))

  pub update_row-AllReadable :
      (id : Str) (status : Status) (error : Str) (started finished : Option ℕ) (rows : List JobRow)
      → AllReadable rows
      → AllReadable (update_row id status error started finished rows)
  unfolding update_row
  update_row-AllReadable id status error started finished [] a = tt
  update_row-AllReadable id status error started finished (r ∷ rows) a =
      let ih = update_row-AllReadable id status error started finished rows a.1 in
      elim (Bool-cases (str_eq r.id id)) [ inl e ↦ rw e (a.0, ih) | inr e ↦ rw e (a.0, ih) ]

  -- What failing the job `id` may change.
  record Cancels (id : Str) (s s' : System) : Type 0 where
    pub queue : s'.queue ≡ s.queue
    pub stopped : s'.stopped ≡ s.stopped
    pub readable : AllReadable s'.db.jobs
    pub done : is_waiting (find_job id s'.db.jobs) ≡ false
    pub others : (k : Str) → str_eq id k ≡ false → find_job k s'.db.jobs ≡ find_job k s.db.jobs

  Cancels-at : {i k : Str} {s s' : System} → i ≡ k → Cancels i s s' → Cancels k s s'
  Cancels-at {s} {s'} same h = subst (λ x. Cancels x s s') same h

  module _ (fine : NoFault env) where
    fail_if_queued-Cancels :
        (now : ℕ) (j : Job fl.F) (status : Status) (row : JobRow) (s : System)
        → AllReadable s.db.jobs
        → find_job j.id s.db.jobs ≡ some row
        → row.status ≡ status
        → Cancels j.id s (fail_if_queued fl env now j status s)
    unfolding fail_if_queued
    fail_if_queued-Cancels now j queued row s a found at = rw (update_job-lem env fine) record {
      queue = refl;
      stopped = refl;
      readable =
          update_row-AllReadable j.id failed cancelled (kept env j.started_at)
            (some (env.column_time now)) s.db.jobs a;
      done = ap is_waiting (
          find_job-update_row j.id failed cancelled (kept env j.started_at)
            (some (env.column_time now)) s.db.jobs row found);
      others = λ k other.
          find_job-update_row_other j.id failed cancelled (kept env j.started_at)
            (some (env.column_time now)) k other s.db.jobs;
    }
    fail_if_queued-Cancels now j running row s a found at = record {
      queue = refl;
      stopped = refl;
      readable = a;
      done = rw (found, at);
      others = λ k other. refl;
    }
    fail_if_queued-Cancels now j completed row s a found at = record {
      queue = refl;
      stopped = refl;
      readable = a;
      done = rw (found, at);
      others = λ k other. refl;
    }
    fail_if_queued-Cancels now j failed row s a found at = record {
      queue = refl;
      stopped = refl;
      readable = a;
      done = rw (found, at);
      others = λ k other. refl;
    }

    forget_call :
        {id : Str} {s s' : System}
        → Cancels id (record s { db = record s.db { calls = suc s.db.calls } }) s'
        → Cancels id s s'
    forget_call h = record {
      queue = h.queue;
      stopped = h.stopped;
      readable = h.readable;
      done = h.done;
      others = h.others;
    }

    fail_queued_job-Cancels :
        (now : ℕ) (id : Str) (s : System)
        → AllReadable s.db.jobs
        → Cancels id s (fail_queued_job fl env now id s)
    unfolding fail_queued_job
    fail_queued_job-Cancels now id s a = elim (Option-cases (find_job id s.db.jobs)) [
      | inl found ↦
          rw (get_job-lem env fine, found)
            record {
              queue = refl;
              stopped = refl;
              readable = a;
              done = rw found;
              others = λ k other. refl;
            }
      | inr (row, found) ↦
          let (request, parsed) = find_job-All _ id s.db.jobs row found a in
          let same = find_job-id id s.db.jobs row found in
          rw (get_job-lem env fine, found, scan_found-lem env [] row request parsed)
            (Cancels-at same (
              forget_call (
                fail_if_queued-Cancels now _ row.status row
                  (record s { db = record s.db { calls = suc s.db.calls } }) a
                  (subst (λ k. find_job k s.db.jobs ≡ some row) (sym same) found) refl)))
    ]

    -- A job that is not waiting is not made to wait.
    Cancels-keeps :
        {id : Str} {s s' : System}
        → Cancels id s s'
        → (k : Str) → is_waiting (find_job k s.db.jobs) ≡ false
        → is_waiting (find_job k s'.db.jobs) ≡ false
    Cancels-keeps {id} {s} {s'} h k out = elim (Bool-cases (str_eq id k)) [
      | inl e ↦
          subst (λ i. is_waiting (find_job i s'.db.jobs) ≡ false) ((str_eq_iff id k).0 e) h.done
      | inr e ↦ ap is_waiting (h.others k e) ∙ out
    ]

    record Drained (ids : List Str) (s s' : System) : Type 0 where
      pub stopped : s'.stopped ≡ s.stopped
      pub done : All (λ id. is_waiting (find_job id s'.db.jobs) ≡ false) ids
      pub out :
          (k : Str)
          → is_waiting (find_job k s.db.jobs) ≡ false
          → is_waiting (find_job k s'.db.jobs) ≡ false

    drain-queue :
        (now : ℕ) (ids : List Str) (s : System)
        → s.queue ≡ ids
        → AllReadable s.db.jobs
        → (drain fl env now ids s).queue ≡ []
    unfolding drain
    drain-queue now [] s q a = q
    drain-queue now (id ∷ ids) s q a =
        let h = fail_queued_job-Cancels now id (record s { queue = ids }) a in
        drain-queue now ids _ h.queue h.readable

    drain-Drained :
        (now : ℕ) (ids : List Str) (s : System)
        → AllReadable s.db.jobs
        → Drained ids s (drain fl env now ids s)
    unfolding drain
    drain-Drained now [] s a = record { stopped = refl; done = tt; out = λ k h. h }
    drain-Drained now (id ∷ ids) s a =
        let h = fail_queued_job-Cancels now id (record s { queue = ids }) a in
        let rest = drain-Drained now ids _ h.readable in
        record {
          stopped = rest.stopped ∙ h.stopped;
          done = (rest.out id h.done, rest.done);
          out = λ k o. rest.out k (Cancels-keeps h k o);
        }

    -- A manager that is stopped while it runs leaves its channel empty, refuses what comes after, and
    -- leaves no job that was in the channel waiting, if no statement failed and the rows can be read.
    pub stop-cancels :
        (now : ℕ) (s : System)
        → s.started ≡ true
        → s.stopped ≡ false
        → AllReadable s.db.jobs
        → ((stop fl env now s).queue ≡ [])
          × ((id : Str) → enqueue id (stop fl env now s) ≡ (false, stop fl env now s))
          × All (λ id. is_waiting (find_job id (stop fl env now s).db.jobs) ≡ false) s.queue
    unfolding stop enqueue
    stop-cancels now s runs live a =
        let s1 : System = record s { started = true; stopped = true } in
        let h = drain-Drained now s.queue s1 a in
        rw (runs, live) (drain-queue now s.queue s1 refl a, λ id. rw h.stopped refl, h.done)
