-- ===== src/Worker/Tasks/Tests.antt =====
-- Schedules of a few goroutines, and instances of the theorems on them.
use data_profiler.Prelude.{
  suc, ◌*◌, ◌≤◌, ◌≡◌, refl, map, length, true, none, some, List, [], ◌∷◌, lit, str_eq, get_elem?,
  arith,
}
use data_profiler.Prelude.Int.{pos}
use data_profiler.Prelude.Rational.{Fraction, fraction}
use data_profiler.Domain.{Job, queued}
use data_profiler.Store.Tables.{find_job, find_key, by_time, queued_rows, recover_row}
use data_profiler.Store.{
  ok, Db, null_string, insert_job, create_job, get_job_by_idempotency_key, list_queued_jobs,
  recover_stale_running_jobs,
}
use data_profiler.Worker.Samples.{request, env, manager, runtime}
use data_profiler.Worker.Shutdown.{is_waiting}
use data_profiler.Worker.Waiting.{interval_of}
use data_profiler.Worker.Valid.{IsValid}
use data_profiler.Worker.{new_job, new_manager, enqueue, enqueue_all, start, stop, create, run}
use data_profiler.Worker.Tasks.{
  answered, loads, waits, stops, ended, Pool, Event, arrives, calls_stop, turns, asks_with, turn,
  happens, play,
}
use data_profiler.Worker.Tasks.Owners.{places, fresh_pool, play-exclusive}
use data_profiler.Worker.Tasks.Keys.{play-one_job}
use data_profiler.Worker.Tasks.Lossless.{carried, play-carries}
use data_profiler.Worker.Tasks.Answers.{is_answered, own_turns}
use data_profiler.Worker.Tasks.Answers.Play.{play-answers}
use data_profiler.Worker.Tasks.Solo.{alone, clock_of, answer}
use data_profiler.Worker.Tasks.Solo.Methods.{alone-methods}

-- A worker has a job when a request comes; the other worker takes the job of the request, and then Stop is called.
abbrev busy : List (Event fraction env runtime)
busy =
    turns 0 6
    ∷ arrives (lit "b") 7 request (lit "l")
    ∷ turns 2 8
    ∷ turns 0 8
    ∷ turns 2 8
    ∷ turns 2 8
    ∷ turns 2 8
    ∷ turns 2 9
    ∷ turns 1 9
    ∷ calls_stop
    ∷ turns 1 10
    ∷ turns 3 10
    ∷ turns 0 11
    ∷ turns 3 12
    ∷ []

play-exclusive_example :
    (places fraction env runtime (lit "a") (
        play fraction env runtime busy
          (fresh_pool fraction env runtime manager.db (pos 2) (pos 1) 5))
      ≤ 1)
    × IsValid
        (play fraction env runtime busy
          (fresh_pool fraction env runtime manager.db (pos 2) (pos 1) 5)).system
play-exclusive_example =
    play-exclusive fraction env runtime manager.db (pos 2) (pos 1) 5 busy (lit "a") (tt, tt)

abbrev no_jobs : Db
no_jobs = record { jobs = []; profiles = []; calls = 0 }

abbrev made : Job Fraction
made = new_job fraction env (lit "b") 7 request (lit "l")

-- What the lookup reads back.
abbrev read_back : Job Fraction
read_back = record {
  id = lit "b";
  status = queued;
  error = [];
  request = request;
  idempotency_key = lit "l";
  created_at = 6;
  started_at = none;
  finished_at = none;
}

-- Two requests of one key, both past their first lookup before either inserts.
abbrev race : List (Event fraction env runtime)
race =
    turns 1 9
    ∷ turns 2 9
    ∷ turns 1 9
    ∷ turns 2 9
    ∷ turns 1 9
    ∷ turns 2 9
    ∷ turns 2 9
    ∷ turns 1 9
    ∷ turns 1 9
    ∷ []

abbrev one_worker : Pool fraction env runtime
one_worker = fresh_pool fraction env runtime no_jobs (pos 1) (pos 1) 5

abbrev one_request : Pool fraction env runtime
one_request = play fraction env runtime (arrives (lit "b") 7 request (lit "l") ∷ []) one_worker

abbrev both_answered : Pool fraction env runtime
both_answered = play fraction env runtime (arrives (lit "c") 8 request (lit "l") ∷ race) one_request

answers_of_race :
    (get_elem? both_answered.tasks (length one_worker.tasks) ≡ some (answered (ok made)))
    × (get_elem? both_answered.tasks (length one_request.tasks) ≡ some (answered (ok read_back)))
unfolding play happens turn new_manager start enqueue_all create_job insert_job
    get_job_by_idempotency_key find_key find_job null_string list_queued_jobs queued_rows
    recover_stale_running_jobs str_eq lit
answers_of_race = (refl, refl)

nothing_yet : one_worker ≡ play fraction env runtime [] one_worker
unfolding play
nothing_yet = refl

play-one_job_example : made.id ≡ read_back.id
unfolding lit
play-one_job_example =
    play-one_job fraction env runtime no_jobs (pos 1) (pos 1) 5 [] [] race (lit "b") (lit "c") 7 8
      request request 108 [] one_worker one_request both_answered made read_back tt nothing_yet refl
      refl answers_of_race.0 answers_of_race.1

-- A worker has taken the job, and has not marked it running.
abbrev taken : List (Event fraction env runtime)
taken = turns 0 6 ∷ arrives (lit "b") 7 request (lit "l") ∷ turns 1 8 ∷ []

still_waits :
    (length (
        queued_rows (
          map
            (recover_row 5 (interval_of (new_manager manager.db (pos 1) (pos 1)).stale_after))
            manager.db.jobs))
      ≤ 1000)
    × (is_waiting (
          find_job
            (lit "a")
            (play fraction env runtime taken
              (fresh_pool fraction env runtime manager.db (pos 1) (pos 1) 5)).system.db.jobs)
        ≡ true)
unfolding play happens turn new_manager start enqueue_all enqueue get_job_by_idempotency_key
    find_key find_job list_queued_jobs queued_rows by_time recover_stale_running_jobs str_eq lit
still_waits = (omega arith, refl)

play-carries_example :
    1
    ≤ carried fraction env runtime (lit "a") (
        play fraction env runtime taken
          (fresh_pool fraction env runtime manager.db (pos 1) (pos 1) 5))
play-carries_example =
    play-carries fraction env runtime (λ n. refl) (λ req b e. (request, refl)) manager.db (pos 1)
      (pos 1) 5 taken (lit "a") ((request, refl), tt) still_waits.0 still_waits.1

-- The request's statements, with those of the worker between them.
abbrev served : List (Event fraction env runtime)
served =
    turns 1 8
    ∷ turns 0 8
    ∷ turns 1 8
    ∷ turns 1 8
    ∷ turns 0 9
    ∷ turns 1 9
    ∷ turns 1 9
    ∷ turns 0 9
    ∷ turns 1 9
    ∷ []

six : 6 ≤ own_turns fraction env runtime 1 served
unfolding own_turns
six = omega arith

workers_alone : length (fresh_pool fraction env runtime manager.db (pos 1) (pos 1) 5).tasks ≡ 1
unfolding new_manager start list_queued_jobs queued_rows recover_stale_running_jobs by_time
    enqueue_all enqueue
workers_alone = refl

play-answers_example :
    is_answered (
      get_elem?
        (play fraction env runtime
          (arrives (lit "b") 7 request (lit "l") ∷ served)
          (fresh_pool fraction env runtime manager.db (pos 1) (pos 1) 5)).tasks
        (length (fresh_pool fraction env runtime manager.db (pos 1) (pos 1) 5).tasks))
    ≡ true
play-answers_example =
    play-answers fraction env runtime (fresh_pool fraction env runtime manager.db (pos 1) (pos 1) 5)
      (lit "b") 7 request (lit "l") served (rw workers_alone six)

alone-methods_example :
    (alone fraction env runtime
        (λ t. 8)
        6
        (asks_with (lit "l") (new_job fraction env (lit "b") 7 request (lit "l")))
        manager
      ≡ answer fraction env runtime (create fraction env (lit "b") 7 8 request (lit "l") manager))
    × (alone fraction env runtime
          (clock_of fraction env runtime 9 10 11)
          6
          (loads (lit "a"))
          manager
        ≡ (waits, run fraction env runtime 9 10 11 (lit "a") manager))
    × (alone fraction env runtime
          (λ t. 11)
          (suc (suc (suc (3 * length manager.queue))))
          stops
          manager
        ≡ (ended, stop fraction env 11 manager))
alone-methods_example =
    alone-methods fraction env runtime (lit "b") (lit "a") 7 8 9 10 11 request (lit "l") manager
