-- ===== src/Server/Exit.antt =====
-- What the end of the process leaves in the database.
use data_profiler.Prelude.{ℕ, ◌≡◌, ◌≤◌, refl, ap, ◌∙◌, true, false, [], ◌∷◌, Str, length, map}
use data_profiler.Prelude.Float.{Float64}
use data_profiler.Prelude.Int.{ℤ}
use data_profiler.Store.Tables.{find_job, queued_rows, recover_row}
use data_profiler.Store.{Db}
use data_profiler.Store.Calls.{NoFault}
use data_profiler.Worker.{System, new_manager}
use data_profiler.Worker.Tasks.{Pool, calls_stop}
use data_profiler.Worker.Shutdown.{AllReadable, is_waiting}
use data_profiler.Worker.Waiting.{In, interval_of}
use data_profiler.Worker.Restart.{start-holds}
use data_profiler.Server.{Outside, close, shut_down, started_manager}
use data_profiler.Server.Closed.{SameTables, AllFail, play-SameTables}
use data_profiler.Config.{load}

-- The manager of a process before its start.
abbrev pub fresh : (fl : Float64) → Outside fl → System
fresh fl out =
    let cfg = load out.process in new_manager out.tables cfg.job_workers cfg.job_stale_after

new_manager-unstarted :
    (d : Db) (n stale_after : ℤ)
    → ((new_manager d n stale_after).started ≡ false)
      × ((new_manager d n stale_after).queue ≡ [])
      × ((new_manager d n stale_after).db ≡ d)
unfolding new_manager
new_manager-unstarted d n stale_after = (refl, refl, refl)

shut_down-SameTables :
    (fl : Float64) (out : Outside fl) (p : Pool fl out.open_db out.runtime)
    → AllFail fl out.closed_db
    → SameTables p.system (shut_down fl out p)
unfolding shut_down
shut_down-SameTables fl out p closed =
    play-SameTables fl out.closed_db out.runtime closed (calls_stop ∷ out.closing) (close fl out p)

-- The end of the process writes nothing into the database, since it is closed before the manager stops, however the
-- statements of Stop, of the workers and of requests are interleaved: the jobs that wait keep waiting there. If the
-- next process finds these tables, no statement of its start fails and the rows can be read, then it takes up
-- every one of them, if there are no more than 1000.
pub shut_down-restart :
    (fl : Float64) (out next : Outside fl) (began : ℕ) (p : Pool fl out.open_db out.runtime)
    (id : Str)
    → AllFail fl out.closed_db
    → NoFault next.open_db
    → next.tables ≡ (shut_down fl out p).db
    → AllReadable fl next.open_db p.system.db.jobs
    → length (
        queued_rows
          (map (recover_row began (interval_of (fresh fl next).stale_after)) p.system.db.jobs))
      ≤ 1000
    → is_waiting (find_job id p.system.db.jobs) ≡ true
    → ((shut_down fl out p).db.jobs ≡ p.system.db.jobs)
      × ((shut_down fl out p).db.profiles ≡ p.system.db.profiles)
      × In id (started_manager fl next began).queue
unfolding started_manager
shut_down-restart fl out next began p id closed fine same readable few waits =
    let kept = shut_down-SameTables fl out p closed in
    let (unstarted, empty, at) =
      new_manager-unstarted next.tables (load next.process).job_workers
        (load next.process).job_stale_after in
    let jobs : (fresh fl next).db.jobs ≡ p.system.db.jobs =
      ap (λ d. d.jobs) at ∙ ap (λ d. d.jobs) same ∙ kept.jobs in
    let (queue, found) =
      start-holds fl next.open_db began (fresh fl next) fine unstarted empty (rw jobs readable)
        (rw jobs few) id (rw jobs waits) in
    (kept.jobs, kept.profiles, found)
