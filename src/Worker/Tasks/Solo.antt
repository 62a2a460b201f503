-- ===== src/Worker/Tasks/Solo.antt =====
-- A goroutine that nothing interrupts: its statements, one after the other, are the method.
mod Request
mod Work
mod Stop
pub mod Methods
use data_profiler.Prelude.{
  ℕ, zero, suc, ◌*◌, ◌≤◌, ◌≡◌, refl, sym, subst, Bool, true, false, not, ◌||◌, none, some, List, [],
  ◌∷◌, ◌++◌, Str, length, ltb, arith, if◌then◌else◌,
}
use data_profiler.Prelude.Float.{Float64}
use data_profiler.Domain.{
  Status, queued, running, completed, failed, ProfileRequest, Job, TableProfile,
}
use data_profiler.Store.{
  Result, ok, err, Env, create_job, update_job, get_job, get_job_by_idempotency_key,
}
use data_profiler.Worker.{
  System, Runtime, capacity, shutting_down, queue_full, branch, on_db, new_job, enqueue,
  finish_create, lost_race, insert_and_enqueue, create, fail_if_queued, fail_queued_job, drain,
  stop, run, profile_and_save, save_profiled, settle,
}
use data_profiler.Worker.Tasks.{
  Task, checks, inserts, looks_again, announces, sends, withdraws, answered, waits, loads, begins,
  profiles, settles, stops, joins, drains, cancels, ended, next, asks_with, turn, turn_among,
  profiled, drains_next, refused, cancels_if,
}

module _ (fl : Float64) (env : Env fl.F) (rt : Runtime fl) where
  open fl use {F}

  -- At most `n` statements of a goroutine while no other one is there; a worker ends its job when it is back
  -- at its select. `clock` is the time at each statement.
  unfoldable pub alone : (Task F → ℕ) → ℕ → Task F → System → Task F × System
  alone clock zero t s = (t, s)
  alone clock (suc n) waits s = (waits, s)
  alone clock (suc n) t s =
      let (t', s') = turn_among fl env rt [] (clock t) t s in alone clock n t' s'

  -- The times of a worker's statements that ask for one.
  abbrev pub clock_of : ℕ → ℕ → ℕ → Task F → ℕ
  clock_of began judged finished (loads id) = began
  clock_of began judged finished (profiles j) = judged
  clock_of began judged finished t = finished

  abbrev pub answer : Result (Job F) × System → Task F × System
  answer (r, s) = (answered r, s)

  pub alone-answered :
      (clock : Task F → ℕ) (n : ℕ) (r : Result (Job F)) (s : System)
      → alone clock n (answered r) s ≡ (answered r, s)
  unfolding alone turn
  alone-answered clock zero r s = refl
  alone-answered clock (suc n) r s = alone-answered clock n r s

  pub alone-waits : (clock : Task F → ℕ) (n : ℕ) (s : System) → alone clock n waits s ≡ (waits, s)
  unfolding alone
  alone-waits clock zero s = refl
  alone-waits clock (suc n) s = refl

  pub alone-ended : (c : Task F → ℕ) (n : ℕ) (s : System) → alone c n ended s ≡ (ended, s)
  unfolding alone turn
  alone-ended c zero s = refl
  alone-ended c (suc n) s = alone-ended c n s
