-- ===== src/Server/Tests.antt =====
-- Two processes, one after the other.
use data_profiler.Prelude.{
  ◌≡◌, ◌≤◌, refl, true, none, some, map, length, [], ◌∷◌, lit, str_eq, arith,
}
use data_profiler.Prelude.Rational.{fraction}
use data_profiler.Store.Tables.{find_job, by_time, queued_rows, recover_row}
use data_profiler.Store.{ok}
use data_profiler.Worker.Samples.{request, env, manager, runtime}
use data_profiler.Worker.Tasks.{waits, turns, quits, Pool}
use data_profiler.Worker.Shutdown.{is_waiting}
use data_profiler.Worker.Waiting.{In, interval_of}
use data_profiler.Config.{Process}
use data_profiler.Server.{Outside, shut_down, started_manager}
use data_profiler.Server.Exit.{fresh, shut_down-restart}

abbrev process : Process
process = record { getenv = λ k. lit "postgres://db"; parse_duration = λ v. none }

-- Stop, with the worker that ends before it drains the channel.
abbrev first : Outside fraction
first = record {
  process = process;
  open_error = λ url. none;
  ping_error = λ url. none;
  tables = manager.db;
  runtime = runtime;
  open_db = env;
  closed_db = record env { fault = λ n. some (lit "sql: database is closed") };
  serve = ok [];
  closing = turns 1 9 ∷ quits 0 ∷ turns 1 9 ∷ turns 1 9 ∷ turns 1 9 ∷ turns 1 9 ∷ [];
}

-- One worker at its select, and a job in the channel.
abbrev pool : Pool fraction env runtime
pool = record { system = manager; tasks = waits ∷ [] }

-- The next process finds what the first one leaves.
abbrev second : Outside fraction
second = record first { tables = (shut_down fraction first pool).db }

is_there : is_waiting (find_job (lit "a") manager.db.jobs) ≡ true
unfolding find_job str_eq lit
is_there = refl

few :
    length (
      queued_rows
        (map (recover_row 20 (interval_of (fresh fraction second).stale_after)) manager.db.jobs))
    ≤ 1000
unfolding queued_rows by_time
few = omega arith

shut_down-restart_example :
    ((shut_down fraction first pool).db.jobs ≡ manager.db.jobs)
    × ((shut_down fraction first pool).db.profiles ≡ manager.db.profiles)
    × In (lit "a") (started_manager fraction second 20).queue
shut_down-restart_example =
    shut_down-restart fraction first second 20 pool (lit "a")
      (λ n. (lit "sql: database is closed", refl)) (λ n. refl) refl ((request, refl), tt) few
      is_there
