-- ===== src/Worker/Failures.antt =====
-- A job whose source cannot be profiled.
use data_profiler.Prelude.{ℕ, ◌≡◌, refl, sym, subst, none, some, [], Str}
use data_profiler.Prelude.Float.{Float64}
use data_profiler.Domain.{running, failed, ProfileRequest}
use data_profiler.Store.Tables.{JobRow, find_job}
use data_profiler.Store.{err, Env}
use data_profiler.Store.Calls.{
  NoFault, written, scan_found-lem, get_job-lem, update_job-lem, find_job-update_row, find_job-id,
}
use data_profiler.Worker.{System, Runtime, profile_and_save, save_profiled, run}

module _ (fl : Float64) (env : Env fl.F) (fine : NoFault env) (rt : Runtime fl) where
  open fl use {F}

  -- A failed row that tells `e`, and no new profile.
  abbrev pub FailsWith : Str → ℕ → ℕ → ℕ → System → Str → Type 0
  FailsWith e started judged ended s id =
      (final : JobRow) × (find_job id (run fl env rt started judged ended id s).db.jobs
        ≡ some final)
      × (final.status ≡ failed)
      × (final.error ≡ some e)
      × (final.finished_at ≡ some (env.column_time ended))
      × ((run fl env rt started judged ended id s).db.profiles ≡ s.db.profiles)

  own_row_fails :
      (started judged ended : ℕ) (s : System) (row : JobRow) (request : ProfileRequest F) (e : Str)
      → find_job row.id s.db.jobs ≡ some row
      → env.request_codec.unmarshal row.request ≡ some request
      → rt.profile_source request ≡ err e
      → FailsWith e started judged ended s row.id
  unfolding run profile_and_save save_profiled
  own_row_fails started judged ended s row request e found parsed bad =
      rw
        (
          get_job-lem env fine,
          found,
          scan_found-lem env [] row request parsed,
          update_job-lem env fine,
          bad,
        )
        (rw (update_job-lem env fine) (
          written failed e (some (env.column_time started)) (some (env.column_time ended))
              (written running [] (some (env.column_time started)) none row),
          find_job-update_row row.id failed e (some (env.column_time started))
              (some (env.column_time ended)) _
              (written running [] (some (env.column_time started)) none row)
              (find_job-update_row row.id running [] (some (env.column_time started)) none s.db.jobs
                row found),
          refl,
          refl,
          refl,
          refl,
        ))

  -- A job whose source cannot be opened or profiled ends failed, with that error in its row, and leaves no
  -- profile, if its row is there and can be read and no statement failed.
  pub run-source_error :
      (started judged ended : ℕ) (id : Str) (s : System) (row : JobRow) (request : ProfileRequest F)
      (e : Str)
      → find_job id s.db.jobs ≡ some row
      → env.request_codec.unmarshal row.request ≡ some request
      → rt.profile_source request ≡ err e
      → FailsWith e started judged ended s id
  run-source_error started judged ended id s row request e found parsed bad =
      let same = find_job-id id s.db.jobs row found in
      subst (FailsWith e started judged ended s) same (
        own_row_fails started judged ended s row request e
          (subst (λ k. find_job k s.db.jobs ≡ some row) (sym same) found) parsed bad)
