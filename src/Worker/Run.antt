-- ===== src/Worker/Run.antt =====
-- What `run` leaves in the tables.
use data_profiler.Prelude.{
  ℕ, suc, ◌≡◌, ◌⊎◌, inl, inr, refl, sym, ap, subst, none, some, List, [], ◌∷◌, ◌++◌, Str,
  Bool-cases, Option-cases,
}
use data_profiler.Prelude.Float.{Float64}
use data_profiler.Domain.{running, completed, failed, ProfileRequest, Job, TableProfile}
use data_profiler.Store.Tables.{JobRow, ProfileRow, find_job, has_job, rows_of_table}
use data_profiler.Store.{kept, Result, ok, err, scan_first, Env, call, save_profile, insert_profile}
use data_profiler.Store.Calls.{
  NoFault, written, scan_found-lem, get_job-lem, update_job-lem, get_previous_profile-lem,
  find_job-update_row, find_job-id,
}
use data_profiler.Worker.{
  System, Runtime, on_db, judge, with_drift, profile_and_save, save_profiled, settle, run,
}

-- A profile of the job is there if the result is `ok`, and nothing new if it is an error.
abbrev pub Written : Str → List ProfileRow → List ProfileRow → Result (Unit {0}) → Type 0
Written id before after (ok _) = (q : ProfileRow) × (q.job_id ≡ id) × (after ≡ before ++ q ∷ [])
Written id before after (err e) = after ≡ before

-- What profiling a job may change.
pub record Saves (id : Str) (s : System) (r : Result (Unit {0})) (s' : System) : Type 0 where
  pub jobs : s'.db.jobs ≡ s.db.jobs
  pub queue : s'.queue ≡ s.queue
  pub profiles : Written id s.db.profiles s'.db.profiles r

-- A row at the end of a job's run.
abbrev pub IsSettled : Str → ℕ → ℕ → List ProfileRow → List ProfileRow → JobRow → Type 0
IsSettled id started ended before after row =
    (row.id ≡ id)
    × (row.started_at ≡ some started)
    × (row.finished_at ≡ some ended)
    × (((row.status ≡ completed)
          × (row.error ≡ some [])
          × ((q : ProfileRow) × (q.job_id ≡ id) × (after ≡ before ++ q ∷ [])))
        ⊎ ((row.status ≡ failed) × (after ≡ before)))

module _ (fl : Float64) (env : Env fl.F) (fine : NoFault env) (rt : Runtime fl) where
  open fl use {F}

  save_profile-Saves :
      (id : Str) (p : TableProfile F) (s : System)
      → Saves id s
          (on_db fl env (save_profile env id p) s).0
          (on_db fl env (save_profile env id p) s).1
  unfolding save_profile insert_profile
  save_profile-Saves id p s = elim (Option-cases (env.profile_codec.marshal p)) [
    | inl e ↦
        rw (fine, call)
          (rw (insert_profile, e) (record { jobs = refl; queue = refl; profiles = refl }))
    | inr (b, e) ↦ elim (Bool-cases (has_job id s.db.jobs)) [
      | inl h ↦
          rw (fine, call)
            (rw (insert_profile, e, h)
              (record { jobs = refl; queue = refl; profiles = (_, refl, refl) }))
      | inr h ↦
          rw (fine, call)
            (rw (insert_profile, e, h) (record { jobs = refl; queue = refl; profiles = refl }))
    ]
  ]

  pub save_profiled-Saves :
      (j : Job F) (now : ℕ) (p : Result (TableProfile F)) (s : System)
      → Saves j.id s (save_profiled fl env rt j now p s).0 (save_profiled fl env rt j now p s).1
  unfolding save_profiled
  save_profiled-Saves j now (err e) s = record { jobs = refl; queue = refl; profiles = refl }
  save_profiled-Saves j now (ok p) s =
      let q = judge fl env rt j now p in
      rw (get_previous_profile-lem env fine s.db q.schema q.table) (
        let stored =
          save_profile-Saves j.id
            (with_drift fl env rt (scan_first env (rows_of_table q.schema q.table s.db.profiles)) q)
            (record s { db = record s.db { calls = suc s.db.calls } }) in
        record { jobs = stored.jobs; queue = stored.queue; profiles = stored.profiles })

  settle-IsSettled :
      (j : Job F) (started ended : ℕ) (row : JobRow) (s : System) (r : Result (Unit {0}))
      (s' : System)
      → Saves j.id s r s'
      → find_job j.id s.db.jobs ≡ some row
      → row.id ≡ j.id
      → j.error ≡ []
      → j.started_at ≡ some started
      → (final : JobRow) × (find_job j.id (settle fl env rt j ended (r, s')).db.jobs ≡ some final)
        × IsSettled j.id
            (env.column_time started)
            (env.column_time ended)
            s.db.profiles
            (settle fl env rt j ended (r, s')).db.profiles
            final
  settle-IsSettled j started ended row s (ok u) s' saved found same blank at =
      rw (update_job-lem env fine) (
        written completed j.error (kept env j.started_at) (some (env.column_time ended)) row,
        find_job-update_row j.id completed j.error (kept env j.started_at)
            (some (env.column_time ended)) s'.db.jobs row (rw saved.jobs found),
        (same, ap (kept env) at, refl, inl (refl, ap some blank, saved.profiles)),
      )
  settle-IsSettled j started ended row s (err e) s' saved found same blank at =
      rw (update_job-lem env fine) (
        written failed e (kept env j.started_at) (some (env.column_time ended)) row,
        find_job-update_row j.id failed e (kept env j.started_at) (some (env.column_time ended))
            s'.db.jobs row (rw saved.jobs found),
        (same, ap (kept env) at, refl, inr (refl, saved.profiles)),
      )

  abbrev RunEnds : ℕ → ℕ → ℕ → System → Str → Type 0
  RunEnds started judged ended s id =
      (final : JobRow) × (find_job id (run fl env rt started judged ended id s).db.jobs
        ≡ some final)
      × IsSettled id (env.column_time started) (env.column_time ended) s.db.profiles
          (run fl env rt started judged ended id s).db.profiles final

  run_own_row :
      (started judged ended : ℕ) (s : System) (row : JobRow) (request : ProfileRequest F)
      → find_job row.id s.db.jobs ≡ some row
      → env.request_codec.unmarshal row.request ≡ some request
      → RunEnds started judged ended s row.id
  unfolding run profile_and_save
  run_own_row started judged ended s row request found parsed =
      rw
        (
          get_job-lem env fine,
          found,
          scan_found-lem env [] row request parsed,
          update_job-lem env fine,
        )
        (settle-IsSettled _ started ended _ _ _ _
          (save_profiled-Saves _ judged (rt.profile_source request) _)
          (find_job-update_row row.id running [] (some (env.column_time started)) none s.db.jobs row
            found)
          refl refl refl)

  -- A job whose row is there and whose request can be read is completed or failed when its run is over, if
  -- no statement failed: its row carries the times at which the run began and ended, as their columns keep
  -- them, and exactly a completed job has left one new profile, under its id.
  pub run-settles :
      (started judged ended : ℕ) (id : Str) (s : System) (row : JobRow) (request : ProfileRequest F)
      → find_job id s.db.jobs ≡ some row
      → env.request_codec.unmarshal row.request ≡ some request
      → (final : JobRow) × (find_job id (run fl env rt started judged ended id s).db.jobs
          ≡ some final)
        × IsSettled id
            (env.column_time started)
            (env.column_time ended)
            s.db.profiles
            (run fl env rt started judged ended id s).db.profiles
            final
  run-settles started judged ended id s row request found parsed =
      let same = find_job-id id s.db.jobs row found in
      subst (RunEnds started judged ended s) same (
        run_own_row started judged ended s row request
          (subst (λ k. find_job k s.db.jobs ≡ some row) (sym same) found) parsed)
