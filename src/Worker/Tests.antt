-- ===== src/Worker/Tests.antt =====
-- Instances of the theorems on managers.
use data_profiler.Prelude.{
  suc, ◌≡◌, inl, refl, map, false, none, some, [], ◌∷◌, Str, lit, str_eq, arith, All, List, take,
  if◌then◌else◌, ◌==◌,
}
use data_profiler.Prelude.Int.{pos}
use data_profiler.Prelude.Rational.{Fraction, fraction}
use data_profiler.Domain.{Job, running}
use data_profiler.Store.Tables.{JobRow, find_job, find_key, recover_row}
use data_profiler.Store.{ok, err, Env}
use data_profiler.Store.Calls.{as_stored}
use data_profiler.Worker.Run.{IsSettled, run-settles}
use data_profiler.Worker.Shutdown.{AllReadable, is_waiting, stop-cancels}
use data_profiler.Worker.Idempotency.{create-repeats}
use data_profiler.Worker.Later.{Steps, done, after}
use data_profiler.Worker.Reach.{
  starts, creates, works, stops, restarts, enqueues, begins, next, Reach-IsValid,
}
use data_profiler.Worker.Valid.{IsValid}
use data_profiler.Worker.Samples.{request, env, waiting, manager, runtime}
use data_profiler.Worker.Race.{insert_and_enqueue-race}
use data_profiler.Worker.Waiting.{ids_of, interval_of}
use data_profiler.Worker.Restart.{start-requeues}
use data_profiler.Store.Oldest.{IsOldestFirst, waits, rows_that}
use mathlib.Core.List.{Perm}
use data_profiler.Worker.Progress.{work_rounds, work_rounds-progress}
use data_profiler.Worker.{
  System, Runtime, new_job, new_manager, insert_and_enqueue, enqueue, create, run, start, stop,
  work,
}

-- Every source is out of reach.
abbrev unreachable : Runtime fraction
unreachable = record runtime { profile_source = λ r. err (lit "dial") }

lookups :
    (find_job (lit "a") manager.db.jobs ≡ some waiting)
    × (find_job (lit "b") manager.db.jobs ≡ none)
    × (find_key (lit "l") manager.db.jobs ≡ none)
unfolding find_job find_key str_eq lit
lookups = (refl, refl, refl)

run-settles_example :
    (final : JobRow) × (find_job
        (lit "a")
        (run fraction env runtime 2 3 4 (lit "a") manager).db.jobs
      ≡ some final)
    × IsSettled
        (lit "a")
        2
        4
        []
        (run fraction env runtime 2 3 4 (lit "a") manager).db.profiles
        final
run-settles_example =
    run-settles fraction env (λ n. refl) runtime 2 3 4 (lit "a") manager waiting request lookups.0
      refl

stop-cancels_example :
    ((stop fraction env 9 manager).queue ≡ [])
    × ((id : Str) → enqueue id (stop fraction env 9 manager) ≡ (false, stop fraction env 9 manager))
    × All
        (λ id. is_waiting (find_job id (stop fraction env 9 manager).db.jobs) ≡ false)
        manager.queue
stop-cancels_example =
    stop-cancels fraction env (λ n. refl) 9 manager refl refl ((request, refl), tt)

-- Every row can be read by this codec.
any_readable : (rows : List JobRow) → AllReadable fraction env rows
any_readable [] = tt
any_readable (r ∷ rows) = ((request, refl), any_readable rows)

-- The first request with a key, and the system when a worker has run a job and the process has been restarted.
abbrev once : System
once = (create fraction env (lit "b") 5 6 request (lit "l") manager).1

abbrev much_later : System
much_later =
    start fraction env 12
      (new_manager (stop fraction env 11 (work fraction env runtime 7 8 9 once)).db (pos 4) (pos 0))

until_then : Steps fraction env once much_later
until_then =
    after (after (after (after done (works runtime 7 8 9)) (stops 11)) (restarts (pos 4) (pos 0)))
      (starts 12)

create-repeats_example :
    ((create fraction env (lit "b") 5 6 request (lit "l") manager).0
      ≡ ok (new_job fraction env (lit "b") 5 request (lit "l")))
    × (once.queue ≡ lit "a" ∷ lit "b" ∷ [])
    × ((j : Job Fraction) × (create fraction env (lit "d") 13 14 request (lit "l") much_later ≡ (
      ok j,
      record much_later { db = record much_later.db { calls = suc much_later.db.calls } },
    ))
        × (j.id ≡ lit "b")
        × (j.idempotency_key ≡ lit "l"))
unfolding lit
create-repeats_example =
    create-repeats fraction env (λ n. refl) (lit "b") [] (lit "{}") b'l' 5 6 request manager
      much_later (lit "d") 13 14 request refl refl (omega arith) (tt, tt) lookups.1 lookups.2
      until_then (any_readable much_later.db.jobs)

-- A fresh manager is given the id of a waiting job, starts, takes a request and runs a job, while the third
-- statement fails.
abbrev flaky : Env Fraction
flaky = record env { fault = λ n. if n == 2 then some (lit "connection refused") else none }

abbrev fresh : System
fresh = (enqueue (lit "a") (new_manager manager.db (pos 4) (pos 0))).1

abbrev asked : System
asked = (create fraction flaky (lit "b") 1 2 request (lit "l") (start fraction flaky 1 fresh)).1

Reach-IsValid_example : IsValid (work fraction flaky runtime 2 3 4 asked)
unfolding new_manager
Reach-IsValid_example = Reach-IsValid fraction flaky (
    next
      (next
        (next (next (begins manager.db (pos 4) (pos 0) (tt, tt)) (enqueues (lit "a") (inl refl)))
          (starts 1))
        (creates (lit "b") 1 2 request (lit "l")))
      (works runtime 2 3 4))

-- One row was created later, and one has been running since the time 3.
abbrev younger : JobRow
younger = record waiting { id = lit "b"; created_at = 7; idempotency_key = none }

abbrev hanging : JobRow
hanging = record waiting {
  id = lit "c";
  status = running;
  created_at = 2;
  started_at = some 3;
  idempotency_key = none;
}

abbrev restarted : System
restarted = record manager {
  db = record manager.db { jobs = younger ∷ waiting ∷ hanging ∷ [] };
  queue = [];
  started = false;
}

start-requeues_example :
    (oldest : List JobRow) × IsOldestFirst oldest
    × Perm oldest (rows_that (waits 9 (interval_of (pos 1))) restarted.db.jobs)
    × ((start fraction env 9 restarted).queue ≡ take 1000 (ids_of oldest))
    × ((start fraction env 9 restarted).db.jobs
        ≡ map (recover_row 9 (interval_of (pos 1))) restarted.db.jobs)
start-requeues_example =
    start-requeues fraction env 9 restarted (λ n. refl) refl refl (any_readable restarted.db.jobs)

work_rounds-progress_example :
    ((work_rounds fraction env (λ n. refl) unreachable ((2, 3, 4) ∷ []) manager).queue ≡ [])
    × All
        (λ id.
          is_waiting (
            find_job id
              (work_rounds fraction env (λ n. refl) unreachable ((2, 3, 4) ∷ []) manager).db.jobs)
          ≡ false)
        manager.queue
work_rounds-progress_example =
    work_rounds-progress fraction env (λ n. refl) unreachable ((2, 3, 4) ∷ []) manager (omega arith)
      ((request, refl), tt)

insert_and_enqueue-race_example :
    (middle : System) × (last : System) × (insert_and_enqueue fraction env
        (new_job fraction env (lit "b") 5 request (lit "l"))
        6
        manager
      ≡ (ok (new_job fraction env (lit "b") 5 request (lit "l")), middle))
    × (insert_and_enqueue fraction env (new_job fraction env (lit "c") 5 request (lit "l")) 7 middle
        ≡ (ok (as_stored env (new_job fraction env (lit "b") 5 request (lit "l"))), last))
    × (middle.queue ≡ lit "a" ∷ lit "b" ∷ [])
    × (last.queue ≡ middle.queue)
    × (last.db.jobs ≡ middle.db.jobs)
unfolding lit
insert_and_enqueue-race_example =
    insert_and_enqueue-race fraction env (λ n. refl) (lit "b") (lit "c") [] (lit "{}") b'l' 5 5 6 7
      request request manager refl refl refl (omega arith) lookups.1 lookups.2
