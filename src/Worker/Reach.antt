-- ===== src/Worker/Reach.antt =====
-- Every order in which the manager's methods are called, with restarts of the process between them.
use data_profiler.Prelude.{ℕ, Str, arith}
use data_profiler.Prelude.Int.{ℤ}
use data_profiler.Prelude.Float.{Float64}
use data_profiler.Domain.{ProfileRequest}
use data_profiler.Store.{Env, Db}
use data_profiler.Store.Index.{index, IsUnique, HasId}
use data_profiler.Worker.Valid.Create.{create-IsValid}
use data_profiler.Worker.Valid.{IsValid, enqueue-IsValid, stop-IsValid, start-IsValid, work-IsValid}
use data_profiler.Worker.{System, Runtime, new_manager, enqueue, create, start, stop, work}

module _ (fl : Float64) (env : Env fl.F) where
  -- A step is one call of a method, with any arguments, but that Enqueue's id is that of a job in the table, as it is
  -- where the program calls it; or the death of the process and a new manager.
  pub data Step : System → System → Type 0 where
    creates :
        {s : System} (id : Str) (now later : ℕ) (req : ProfileRequest fl.F) (key : Str)
        → Step s (create fl env id now later req key s).1
    enqueues : {s : System} (id : Str) → HasId id (index s.db.jobs) → Step s (enqueue id s).1
    starts : {s : System} (now : ℕ) → Step s (start fl env now s)
    works :
        {s : System} (rt : Runtime fl) (started judged ended : ℕ)
        → Step s (work fl env rt started judged ended s)
    stops : {s : System} (now : ℕ) → Step s (stop fl env now s)
    restarts : {s : System} (n stale_after : ℤ) → Step s (new_manager s.db n stale_after)

  pub data Reach : System → Type 0 where
    begins :
        (d : Db) (n stale_after : ℤ) → IsUnique (index d.jobs) → Reach (new_manager d n stale_after)
    next : {s s' : System} → Reach s → Step s s' → Reach s'

  pub new_manager-IsValid :
      (d : Db) (n stale_after : ℤ) → IsUnique (index d.jobs) → IsValid (new_manager d n stale_after)
  unfolding new_manager
  new_manager-IsValid d n stale_after u = record { unique = u; bounded = omega arith; known = tt }

  Step-IsValid : {s s' : System} → Step s s' → IsValid s → IsValid s'
  Step-IsValid (creates {s} id now later req key) v = create-IsValid fl env id now later req key s v
  Step-IsValid (enqueues {s} id known) v = enqueue-IsValid id s known v
  Step-IsValid (starts {s} now) v = start-IsValid fl env now s v
  Step-IsValid (works {s} rt started judged ended) v =
      work-IsValid fl env rt started judged ended s v
  Step-IsValid (stops {s} now) v = stop-IsValid fl env now s v
  Step-IsValid (restarts {s} n stale_after) v = new_manager-IsValid s.db n stale_after v.unique

  -- From a table whose rows have different ids and keys, whatever methods are called in whatever order, Enqueue only
  -- with the id of a job in the table, whichever statements fail and wherever the process restarts: no two jobs
  -- ever have one id or one idempotency key, the channel never holds more than 1000 ids, and every id in it
  -- has a row.
  pub Reach-IsValid : {s : System} → Reach s → IsValid s
  Reach-IsValid (begins d n stale_after u) = new_manager-IsValid d n stale_after u
  Reach-IsValid (next r step) = Step-IsValid step (Reach-IsValid r)
