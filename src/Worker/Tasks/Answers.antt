-- ===== src/Worker/Tasks/Answers.antt =====
-- How long a goroutine goes on by itself: a request until its answer, a worker until it is back at its select.
mod Turns
pub mod Play
use data_profiler.Prelude.{
  ℕ, zero, suc, ◌+◌, ◌-◌, ◌≤◌, ◌<◌, ◌≡◌, refl, Bool, true, false, Option, none, some, List, [], ◌∷◌,
  ◌++◌, Str, length, ltb, get_elem?, set, ◌==◌, get_elem?-set, get_elem?-set_other, get_elem?-lt,
  ◌∙◌, Bool-cases, inl, inr, arith, if◌then◌else◌,
}
use data_profiler.Prelude.Float.{Float64}
use data_profiler.Domain.{failed, ProfileRequest, Job}
use data_profiler.Store.{Result, ok, err, Env, create_job, update_job, get_job_by_idempotency_key}
use data_profiler.Worker.{System, Runtime, capacity, on_db, new_job, queue_full}
use data_profiler.Worker.Tasks.{
  Task, looks_up, checks, inserts, looks_again, announces, sends, withdraws, answered, waits, loads,
  begins, profiles, compares, saves, settles, stops, next, refused, Pool, Event, arrives,
  calls_stop, turns, quits, turn, turn_at, turn_among, asks_with, quit, quit_at, happens, play,
}

-- The most statements that are left to a request, or to a worker on its job.
unfoldable pub remaining : {F : Type 0} → Task F → ℕ
remaining (looks_up j) = 6
remaining (checks j) = 5
remaining (inserts j) = 4
remaining (announces j) = 3
remaining (sends j) = 2
remaining (withdraws j) = 1
remaining (looks_again j e) = 1
remaining (loads id) = 6
remaining (begins j) = 5
remaining (profiles j) = 4
remaining (compares j q) = 3
remaining (saves j q) = 2
remaining (settles j r) = 1
remaining _ = 0

abbrev pub is_request : {F : Type 0} → Task F → Bool
is_request (looks_up j) = true
is_request (checks j) = true
is_request (inserts j) = true
is_request (looks_again j e) = true
is_request (announces j) = true
is_request (sends j) = true
is_request (withdraws j) = true
is_request (answered r) = true
is_request _ = false

abbrev pub is_answered : {F : Type 0} → Option (Task F) → Bool
is_answered (some (answered r)) = true
is_answered _ = false

module _ (fl : Float64) (env : Env fl.F) (rt : Runtime fl) where
  open fl use {F}

  -- How many statements goroutine `i` is given.
  unfoldable pub own_turns : ℕ → List (Event fl env rt) → ℕ
  own_turns i [] = 0
  own_turns i (arrives id now req key ∷ es) = own_turns i es
  own_turns i (calls_stop ∷ es) = own_turns i es
  own_turns i (quits k ∷ es) = own_turns i es
  own_turns i (turns k now ∷ es) = (if k == i then 1 else 0) + own_turns i es
