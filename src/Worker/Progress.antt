-- ===== src/Worker/Progress.antt =====
-- What the workers make of the jobs in the channel.
use data_profiler.Prelude.{
  ℕ, ◌≡◌, ◌≤◌, arith, refl, sym, ap, ◌∙◌, subst, false, Option, none, some, List, [], ◌∷◌, Str,
  length, str_eq, str_eq_iff, All, Bool-cases, Option-cases, inl, inr,
}
use data_profiler.Prelude.Float.{Float64}
use data_profiler.Domain.{Status, running, completed, failed, ProfileRequest, Job}
use data_profiler.Store.Tables.{JobRow, ProfileRow, find_job, is_queued, update_row}
use data_profiler.Store.{kept, Result, ok, err, Env}
use data_profiler.Store.Calls.{
  NoFault, scan_found-lem, get_job-lem, update_job-lem, find_job-update_row_other, find_job-id,
}
use data_profiler.Worker.Run.{Saves, IsSettled, save_profiled-Saves, run-settles}
use data_profiler.Worker.Shutdown.{AllReadable, is_waiting, find_job-All, update_row-AllReadable}
use data_profiler.Worker.{System, Runtime, profile_and_save, settle, run, work, work_on}

module _ (fl : Float64) (env : Env fl.F) where
  open fl use {F}

  -- The row of one job, at most, is another, and the channel is what it was.
  record Touches (id : Str) (s s' : System) : Type 0 where
    pub queue : s'.queue ≡ s.queue
    pub readable : AllReadable fl env s'.db.jobs
    pub others : (k : Str) → str_eq id k ≡ false → find_job k s'.db.jobs ≡ find_job k s.db.jobs

  Touches-at : {i k : Str} {s s' : System} → i ≡ k → Touches i s s' → Touches k s s'
  Touches-at {s} {s'} same h = subst (λ x. Touches x s s') same h

  -- An UPDATE of one row.
  rewrites :
      (id : Str) (status : Status) (error : Str) (started finished : Option ℕ) (s t : System)
      → AllReadable fl env s.db.jobs
      → t.queue ≡ s.queue
      → t.db.jobs ≡ update_row id status error started finished s.db.jobs
      → Touches id s t
  rewrites id status error started finished s t a queue jobs = record {
    queue = queue;
    readable = rw jobs (update_row-AllReadable fl env id status error started finished s.db.jobs a);
    others = λ k other.
        rw jobs (find_job-update_row_other id status error started finished k other s.db.jobs);
  }

  -- The same with an UPDATE of that row before.
  after_update :
      (id : Str) (status : Status) (error : Str) (started finished : Option ℕ) (s m t : System)
      → m.queue ≡ s.queue
      → m.db.jobs ≡ update_row id status error started finished s.db.jobs
      → Touches id m t
      → Touches id s t
  after_update id status error started finished s m t queue jobs h = record {
    queue = h.queue ∙ queue;
    readable = h.readable;
    others = λ k other.
        h.others k other
        ∙ rw jobs (find_job-update_row_other id status error started finished k other s.db.jobs);
  }

  settled_waits :
      (started ended : ℕ) (before after : List ProfileRow) (id : Str) (final : JobRow)
      → IsSettled id started ended before after final
      → is_queued final.status ≡ false
  settled_waits started ended before after id final (same, at, end, inl (h, told, rest)) = rw h refl
  settled_waits started ended before after id final (same, at, end, inr (h, rest)) = rw h refl

  module _ (fine : NoFault env) (rt : Runtime fl) where
    settle-Touches :
        (j : Job F) (ended : ℕ) (s : System) (r : Result (Unit {0})) (s' : System)
        → Saves j.id s r s'
        → AllReadable fl env s.db.jobs
        → Touches j.id s (settle fl env rt j ended (r, s'))
    settle-Touches j ended s (ok u) s' saved a = rw (update_job-lem env fine) (
        rewrites j.id completed j.error (kept env j.started_at) (some (env.column_time ended)) s _ a
          saved.queue (rw saved.jobs refl))
    settle-Touches j ended s (err e) s' saved a = rw (update_job-lem env fine) (
        rewrites j.id failed e (kept env j.started_at) (some (env.column_time ended)) s _ a
          saved.queue (rw saved.jobs refl))

    run_own_row-Touches :
        (started judged ended : ℕ) (s : System) (row : JobRow) (request : ProfileRequest F)
        → find_job row.id s.db.jobs ≡ some row
        → env.request_codec.unmarshal row.request ≡ some request
        → AllReadable fl env s.db.jobs
        → Touches row.id s (run fl env rt started judged ended row.id s)
    unfolding run profile_and_save
    run_own_row-Touches started judged ended s row request found parsed a =
        rw
          (
            get_job-lem env fine,
            found,
            scan_found-lem env [] row request parsed,
            update_job-lem env fine,
          )
          (after_update row.id running [] (some (env.column_time started)) none s _ _ refl refl (
            settle-Touches _ ended _ _ _
              (save_profiled-Saves fl env fine rt _ judged (rt.profile_source request) _)
              (update_row-AllReadable fl env row.id running [] (some (env.column_time started)) none
                s.db.jobs a)))

    run-Touches :
        (started judged ended : ℕ) (id : Str) (s : System)
        → AllReadable fl env s.db.jobs
        → Touches id s (run fl env rt started judged ended id s)
          × (is_waiting (find_job id (run fl env rt started judged ended id s).db.jobs) ≡ false)
    unfolding run
    run-Touches started judged ended id s a = elim (Option-cases (find_job id s.db.jobs)) [
      | inl found ↦
          rw (get_job-lem env fine, found)
            (record { queue = refl; readable = a; others = λ k other. refl }, rw found refl)
      | inr (row, found) ↦
          let (request, parsed) = find_job-All _ id s.db.jobs row found a in
          let same = find_job-id id s.db.jobs row found in
          let (final, at, settled) =
            run-settles fl env fine rt started judged ended id s row request found parsed in
          (
            subst (λ k. Touches k s (run fl env rt started judged ended k s)) same
                (run_own_row-Touches started judged ended s row request
                  (subst (λ k. find_job k s.db.jobs ≡ some row) (sym same) found) parsed a),
            rw at (
                settled_waits (env.column_time started) (env.column_time ended) _ _ id final
                  settled),
          )
    ]

    -- Rounds of the workers, each with the times at which its job began, was judged and ended.
    abbrev pub work_rounds : List (ℕ × ℕ × ℕ) → System → System
    work_rounds [] s = s
    work_rounds ((started, judged, ended) ∷ times) s =
        work_rounds times (work fl env rt started judged ended s)

    -- What rounds do to jobs that do not wait, and to those of the ids `ids` at the front of the channel.
    record Works (ids : List Str) (s s' : System) : Type 0 where
      pub queue : s'.queue ≡ []
      pub done : All (λ id. is_waiting (find_job id s'.db.jobs) ≡ false) ids
      pub out :
          (k : Str)
          → is_waiting (find_job k s.db.jobs) ≡ false
          → is_waiting (find_job k s'.db.jobs) ≡ false

    stays_out :
        {id : Str} {s s' : System}
        → Touches id s s'
        → is_waiting (find_job id s'.db.jobs) ≡ false
        → (k : Str) → is_waiting (find_job k s.db.jobs) ≡ false
        → is_waiting (find_job k s'.db.jobs) ≡ false
    stays_out {id} {s} {s'} h done k out = elim (Bool-cases (str_eq id k)) [
      | inl e ↦ subst (λ i. is_waiting (find_job i s'.db.jobs) ≡ false) ((str_eq_iff id k).0 e) done
      | inr e ↦ ap is_waiting (h.others k e) ∙ out
    ]

    work_rounds-Works :
        (times : List (ℕ × ℕ × ℕ)) (ids : List Str) (s : System)
        → s.queue ≡ ids
        → length ids ≤ length times
        → AllReadable fl env s.db.jobs
        → Works ids s (work_rounds times s)
    unfolding work
    work_rounds-Works [] [] s q few a = record { queue = q; done = tt; out = λ k h. h }
    work_rounds-Works [] (id ∷ ids) s q few a = absurd (omega arith)
    work_rounds-Works ((started, judged, ended) ∷ times) [] s q few a =
        subst (λ l. Works [] s (work_rounds times (work_on fl env rt started judged ended l s)))
          (sym q) (work_rounds-Works times [] s q (omega arith) a)
    work_rounds-Works ((started, judged, ended) ∷ times) (id ∷ ids) s q few a =
        let (h, done) = run-Touches started judged ended id (record s { queue = ids }) a in
        let rest =
          work_rounds-Works times ids
            (run fl env rt started judged ended id (record s { queue = ids })) h.queue (omega arith)
            h.readable in
        rw q (record {
          queue = rest.queue;
          done = (rest.out id done, rest.done);
          out = λ k o. rest.out k (stays_out h done k o);
        })

    -- The workers make progress: after as many rounds as the channel has ids it is empty, and none of those
    -- jobs waits any more, whatever their sources do, if the rows can be read and no statement failed.
    pub work_rounds-progress :
        (times : List (ℕ × ℕ × ℕ)) (s : System)
        → length s.queue ≤ length times
        → AllReadable fl env s.db.jobs
        → ((work_rounds times s).queue ≡ [])
          × All (λ id. is_waiting (find_job id (work_rounds times s).db.jobs) ≡ false) s.queue
    work_rounds-progress times s few a =
        let h = work_rounds-Works times s.queue s refl few a in (h.queue, h.done)
