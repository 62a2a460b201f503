-- ===== src/Connect/Jobs.antt =====
-- internal/worker/manager.go: how a job's run comes to the profile of its source.
use data_profiler.Prelude.{
  ℕ, ◌≡◌, refl, inl, inr, none, some, Str, lit, str_eq, to_lower, if◌then◌else◌,
}
use data_profiler.Prelude.Float.{Float64}
use data_profiler.Domain.{ProfileRequest, TableProfile}
use data_profiler.Store.Tables.{JobRow, find_job}
use data_profiler.Store.{Result, ok, err, Env}
use data_profiler.Store.Calls.{NoFault}
use data_profiler.Config.{Process}
use data_profiler.Profile.Source.{Source}
use data_profiler.Profile.Table.{Course, profile_table}
use data_profiler.Worker.{System, Runtime}
use data_profiler.Worker.Failures.{FailsWith, run-source_error}
use data_profiler.Connect.{Sql, Opened, dialect_of, unsupported, not_bundled, open_source}
use data_profiler.Connect.Handles.{driver_of-Serves}

module _ (fl : Float64) {H : Type 0} (sql : Sql H) (process : Process) (source : H → Source fl.F)
    (course : Course) where
  open fl use {F}

  abbrev pub profile_opened : ProfileRequest F → Opened sql process → Result (TableProfile F)
  profile_opened req (err e, calls) = err e
  profile_opened req (ok a, calls) =
      profile_table fl (source a.db) a.dialect course req.schema req.table req.sample_size

  -- adapters.Open, and then ProfileTable.
  unfoldable pub profile_source : ProfileRequest F → Result (TableProfile F)
  profile_source req = profile_opened req (open_source sql process req.source.typ req.source.dsn)

  abbrev pub over : Runtime fl → Runtime fl
  over rt = record rt { profile_source = profile_source }

  -- What the user is told about a type that is not supported.
  abbrev pub refusal : Str → Str
  refusal typ = if str_eq typ (lit "snowflake") then not_bundled else unsupported sql process typ

  profile_source-refusal :
      (req : ProfileRequest F)
      → dialect_of (to_lower req.source.typ) ≡ none
      → profile_source req ≡ err (refusal (to_lower req.source.typ))
  unfolding profile_source open_source
  profile_source-refusal req h = elim (driver_of-Serves (to_lower req.source.typ)) [
    | inl (unserved, no_driver) ↦ rw no_driver refl
    | inr (driver, d, serves, named, dialect) ↦ cc (h, dialect)
  ]

  -- A job for a type of database that is not supported ends failed, with the reason in its row, and leaves no
  -- profile, if its row is there and can be read and no statement failed.
  pub run-unsupported :
      (rt : Runtime fl) (env : Env F) (started judged ended : ℕ) (id : Str) (s : System)
      (row : JobRow) (request : ProfileRequest F) (fine : NoFault env)
      → find_job id s.db.jobs ≡ some row
      → env.request_codec.unmarshal row.request ≡ some request
      → dialect_of (to_lower request.source.typ) ≡ none
      → FailsWith fl env fine
          (over rt)
          (refusal (to_lower request.source.typ))
          started
          judged
          ended
          s
          id
  run-unsupported rt env started judged ended id s row request fine found parsed h =
      run-source_error fl env fine (over rt) started judged ended id s row request
        (refusal (to_lower request.source.typ)) found parsed (profile_source-refusal request h)
