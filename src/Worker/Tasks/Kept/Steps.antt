-- ===== src/Worker/Tasks/Kept/Steps.antt =====
-- A statement that keeps every waiting job in the channel or in hands.
use data_profiler.Prelude.{
  ◌+◌, ◌≤◌, ◌≡◌, ◌⊎◌, subst, inl, inr, true, false, List, [], ◌∷◌, Str, str_eq, str_eq_iff,
  Bool-cases, arith,
}
use data_profiler.Prelude.Float.{Float64}
use data_profiler.Domain.{Job}
use data_profiler.Store.Tables.{find_job, is_queued, update_row}
use data_profiler.Store.{kept, Result, ok, err, Env}
use data_profiler.Worker.Shutdown.{AllReadable, is_waiting, update_row-AllReadable}
use data_profiler.Worker.{System}
use data_profiler.Worker.Tasks.Moves.{occurs, holds}
use data_profiler.Worker.Tasks.{Task, withdraws, next}
use data_profiler.Worker.Tasks.Kept.Rows.{waiting-update_row}

-- The id that a goroutine answers for: the one that it holds, and that of the row that it is about to mark failed.
abbrev pub minds : {F : Type 0} → Task F → List Str
minds (withdraws j) = j.id ∷ []
minds t = holds t

module _ (fl : Float64) (env : Env fl.F) where
  open fl use {F}

  -- A job that waits afterwards is in the channel or in these hands, or it waited before and is no less there.
  pub record Tends (t : Task F) (s : System) (r : Task F × System) : Type 0 where
    pub readable : AllReadable fl env s.db.jobs → AllReadable fl env r.1.db.jobs
    pub waiting :
        (x : Str)
        → is_waiting (find_job x r.1.db.jobs) ≡ true
        → (1 ≤ occurs x r.1.queue + occurs x (minds r.0))
          ⊎ ((is_waiting (find_job x s.db.jobs) ≡ true)
              × (occurs x s.queue + occurs x (minds t) ≤ occurs x r.1.queue + occurs x (minds r.0)))

  pub same_rows :
      (t t' : Task F) (s s' : System)
      → s'.db.jobs ≡ s.db.jobs
      → ((x : Str)
          → occurs x s.queue + occurs x (minds t) ≤ occurs x s'.queue + occurs x (minds t'))
      → Tends t s (t', s')
  same_rows t t' s s' same more = record {
    readable = λ a. rw same a;
    waiting = λ x h. inr (rw same at h, more x);
  }

  -- An id of the store's answer that has no row, or one that does not wait, may be forgotten.
  pub forgets :
      (id : Str) (t t' : Task F) (s s' : System)
      → s'.db.jobs ≡ s.db.jobs
      → is_waiting (find_job id s.db.jobs) ≡ false
      → ((x : Str)
          → str_eq id x ≡ false
          → occurs x s.queue + occurs x (minds t) ≤ occurs x s'.queue + occurs x (minds t'))
      → Tends t s (t', s')
  forgets id t t' s s' same out more = record {
    readable = λ a. rw same a;
    waiting = λ x h. elim (Bool-cases (str_eq id x)) [
      | inr other ↦ inr (rw same at h, more x other)
      | inl own ↦
          let eq : id ≡ x = (str_eq_iff id x).0 own in
          let waits_there : is_waiting (find_job x s.db.jobs) ≡ true = rw same at h in
          let out_there : is_waiting (find_job x s.db.jobs) ≡ false =
            subst (λ y. is_waiting (find_job y s.db.jobs) ≡ false) eq out in
          cc (waits_there, out_there)
    ];
  }

  -- UpdateJob with a status that is not queued.
  pub closes :
      (t t' : Task F) (j : Job F) (s s' : System)
      → is_queued j.status ≡ false
      → s'.queue ≡ s.queue
      → s'.db.jobs
        ≡ update_row j.id j.status j.error
            (kept env j.started_at)
            (kept env j.finished_at)
            s.db.jobs
      → ((x : Str) → str_eq j.id x ≡ false → occurs x (minds t) ≤ occurs x (minds t'))
      → Tends t s (t', s')
  closes t t' j s s' shut queue rows more = record {
    readable = λ a. rw rows (
        update_row-AllReadable fl env j.id j.status j.error (kept env j.started_at)
          (kept env j.finished_at) s.db.jobs a);
    waiting = λ x h.
        elim (waiting-update_row x j.id j.status j.error (kept env j.started_at)
          (kept env j.finished_at) s.db.jobs (rw rows at h)) [
            | inl (own, unshut) ↦ cc (unshut, shut)
            | inr (other, before) ↦ inr (before, rw queue (omega (arith, more x other)))
          ];
  }

  -- UpdateJob by a goroutine that goes on with the job.
  pub rewrites :
      (t t' : Task F) (j : Job F) (s s' : System)
      → s'.queue ≡ s.queue
      → s'.db.jobs
        ≡ update_row j.id j.status j.error
            (kept env j.started_at)
            (kept env j.finished_at)
            s.db.jobs
      → minds t ≡ j.id ∷ []
      → minds t' ≡ j.id ∷ []
      → Tends t s (t', s')
  rewrites t t' j s s' queue rows before after = record {
    readable = λ a. rw rows (
        update_row-AllReadable fl env j.id j.status j.error (kept env j.started_at)
          (kept env j.finished_at) s.db.jobs a);
    waiting = λ x h.
        elim (waiting-update_row x j.id j.status j.error (kept env j.started_at)
          (kept env j.finished_at) s.db.jobs (rw rows at h)) [
            | inl (own, unshut) ↦ inl (rw (after, own) (omega arith))
            | inr (other, was) ↦ inr (was, rw (queue, before, after) (omega arith))
          ];
  }

  -- A call that reads, by a goroutine that minds no id.
  pub next_reads :
      {A : Type 0} (t : Task F) (s s' : System) (r : Result A) (f : Str → Task F) (g : A → Task F)
      → minds t ≡ []
      → s'.queue ≡ s.queue
      → s'.db.jobs ≡ s.db.jobs
      → Tends t s (next (r, s') f g)
  next_reads t s s' (err e) f g none_of queue rows =
      same_rows t (f e) s s' rows (λ x. rw (none_of, queue) (omega arith))
  next_reads t s s' (ok a) f g none_of queue rows =
      same_rows t (g a) s s' rows (λ x. rw (none_of, queue) (omega arith))
