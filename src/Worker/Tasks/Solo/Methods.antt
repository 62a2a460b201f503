-- ===== src/Worker/Tasks/Solo/Methods.antt =====
-- The three methods of the manager, statement by statement.
use data_profiler.Prelude.{ℕ, suc, ◌*◌, ◌≡◌, Str, length}
use data_profiler.Prelude.Float.{Float64}
use data_profiler.Domain.{ProfileRequest}
use data_profiler.Store.{Env}
use data_profiler.Worker.{System, Runtime, new_job, create, stop, run}
use data_profiler.Worker.Tasks.{waits, loads, stops, ended, asks_with}
use data_profiler.Worker.Tasks.Solo.{alone, clock_of, answer}
use data_profiler.Worker.Tasks.Solo.Request.{create-alone}
use data_profiler.Worker.Tasks.Solo.Work.{run-alone}
use data_profiler.Worker.Tasks.Solo.Stop.{stop-alone}

module _ (fl : Float64) (env : Env fl.F) (rt : Runtime fl) where
  open fl use {F}

  -- A goroutine that nothing interrupts does what its method does, in every state and whichever statements fail:
  -- a request ends within six statements, with the answer and the state of `create`; a worker that has taken an id
  -- is back at its select within six, in the state of `run`; `Stop` ends within three statements for each id of
  -- the channel and three more, in the state of `stop`.
  pub alone-methods :
      (id taken : Str) (now later began judged finished : ℕ) (req : ProfileRequest F) (key : Str)
      (s : System)
      → (alone fl env rt (λ t. later) 6 (asks_with key (new_job fl env id now req key)) s
          ≡ answer fl env rt (create fl env id now later req key s))
        × (alone fl env rt (clock_of fl env rt began judged finished) 6 (loads taken) s
            ≡ (waits, run fl env rt began judged finished taken s))
        × (alone fl env rt (λ t. finished) (suc (suc (suc (3 * length s.queue)))) stops s
            ≡ (ended, stop fl env finished s))
  alone-methods id taken now later began judged finished req key s = (
    create-alone fl env rt later id now req key s,
    run-alone fl env rt began judged finished taken s,
    stop-alone fl env rt finished s,
  )
