-- ===== src/Server.antt =====
-- cmd/server/main.go: `main`, from the start of the process to its end.
pub mod Closed
pub mod Exit
mod Tests
use data_profiler.Prelude.{ℕ, Option, none, some, List, [], ◌∷◌, Str, lit}
use data_profiler.Prelude.Float.{Float64}
use data_profiler.Store.{Result, ok, err, Env, Db}
use data_profiler.Config.{Process, load}
use data_profiler.Worker.{System, Runtime, new_manager, start}
use data_profiler.Worker.Tasks.{Pool, Event, calls_stop, play, launch}

-- How the process ends: `log.Fatal` with its message, or `main` returns and leaves the manager so.
pub data Ending : Type 0 where
  fatal : Str → Ending
  returns : System → Ending

-- What `main` meets outside: the errors of sql.Open and of PingContext for the metadata database's URL, and its
-- tables; `open_db` and `closed_db` are the database before and after db.Close. `serve` is what the
-- goroutines of the requests and of the workers do until the signal and the server's Shutdown, statement by
-- statement, or the error of ListenAndServe; `closing` is what they and Stop do from db.Close on until Stop returns.
pub record Outside (fl : Float64) : Type 0 where
  pub process : Process
  pub open_error : Str → Option Str
  pub ping_error : Str → Option Str
  pub tables : Db
  pub runtime : Runtime fl
  pub open_db : Env fl.F
  pub closed_db : Env fl.F
  pub serve : Result (List (Event fl open_db runtime))
  pub closing : List (Event fl closed_db runtime)

module _ (fl : Float64) (out : Outside fl) where
  -- The same goroutines, before db.Close and after it.
  abbrev pub close : Pool fl out.open_db out.runtime → Pool fl out.closed_db out.runtime
  close p = record { system = p.system; tasks = p.tasks }

  -- The end of `main`: `db.Close` comes first, and the deferred `jobs.Stop` after it.
  unfoldable pub shut_down : Pool fl out.open_db out.runtime → System
  shut_down p = (play fl out.closed_db out.runtime (calls_stop ∷ out.closing) (close p)).system

  -- The manager that `main` makes and starts.
  unfoldable pub started_manager : ℕ → System
  started_manager began =
      let cfg = load out.process in
      start fl out.open_db began (new_manager out.tables cfg.job_workers cfg.job_stale_after)

  abbrev pub served :
      Pool fl out.open_db out.runtime → Result (List (Event fl out.open_db out.runtime)) → Ending
  served p (err e) = fatal (lit "http server")
  served p (ok es) = returns (shut_down (play fl out.open_db out.runtime es p))

  abbrev pub with_database : ℕ → Option Str → Option Str → Ending
  with_database began (some e) pinged = fatal (lit "open metadata db")
  with_database began none (some e) = fatal (lit "ping metadata db")
  with_database began none none =
      served (launch fl out.open_db out.runtime (started_manager began)) out.serve

  abbrev pub with_url : ℕ → Str → Ending
  with_url began [] = fatal (lit "DATABASE_URL is required")
  with_url began (c ∷ url) =
      with_database began (out.open_error (c ∷ url)) (out.ping_error (c ∷ url))

  -- `began` is the database's time at the start.
  unfoldable pub main : ℕ → Ending
  main began = with_url began (load out.process).profiler_database_url
