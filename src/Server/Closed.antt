-- ===== src/Server/Closed.antt =====
-- What the goroutines do to the tables once the database is closed: nothing.
use data_profiler.Prelude.{
  ℕ, ◌≡◌, refl, ◌∙◌, ◌||◌, not, Option, none, some, List, [], ◌∷◌, Str, length, ltb, get_elem?,
  Bool-cases, inl, inr,
}
use data_profiler.Prelude.Float.{Float64}
use data_profiler.Store.{
  Env, call, create_job, update_job, get_job, get_job_by_idempotency_key, get_previous_profile,
  save_profile,
}
use data_profiler.Worker.{System, Runtime, capacity}
use data_profiler.Worker.Tasks.{
  Task, checks, announces, sends, answered, waits, profiles, gone, stops, joins, drains, ended,
  takes, drains_next, turn, turn_among, Pool, Event, arrives, calls_stop, turns, quits, turn_at,
  quit_at, happens, play,
}

-- The tables of two states.
pub record SameTables (s s' : System) : Type 0 where
  pub jobs : s'.db.jobs ≡ s.db.jobs
  pub profiles : s'.db.profiles ≡ s.db.profiles

SameTables-refl : (s : System) → SameTables s s
SameTables-refl s = record { jobs = refl; profiles = refl }

-- Every call fails, as it does once the database is closed.
abbrev pub AllFail : (fl : Float64) → Env fl.F → Type 0
AllFail fl env = (n : ℕ) → (e : Str) × (env.fault n ≡ some e)

module _ (fl : Float64) (env : Env fl.F) (rt : Runtime fl) where
  open fl use {F}

  module _ (closed : AllFail fl env) where
    turn-SameTables :
        (ts : List (Task F)) (now : ℕ) (t : Task F) (s : System)
        → SameTables s (turn_among fl env rt ts now t s).1
    unfolding turn create_job update_job get_job get_job_by_idempotency_key get_previous_profile
        save_profile
    turn-SameTables ts now (sends j) s = elim (Bool-cases (ltb (length s.queue) capacity)) [
      | inl e ↦ rw e (record { jobs = refl; profiles = refl })
      | inr e ↦ rw e (SameTables-refl _)
    ]
    turn-SameTables ts now waits s = go s.queue
      where
        go : (q : List Str) → SameTables s (takes {F = F} q s).1
        go [] = SameTables-refl s
        go (x ∷ q) = record { jobs = refl; profiles = refl }
    turn-SameTables ts now stops s = elim (Bool-cases (not s.started || s.stopped)) [
      | inl e ↦ rw e (SameTables-refl _)
      | inr e ↦ rw e (record { jobs = refl; profiles = refl })
    ]
    turn-SameTables ts now drains s = go s.queue
      where
        go : (q : List Str) → SameTables s (drains_next {F = F} q s).1
        go [] = SameTables-refl s
        go (x ∷ q) = record { jobs = refl; profiles = refl }
    turn-SameTables ts now (checks j) s = SameTables-refl s
    turn-SameTables ts now (announces j) s = SameTables-refl s
    turn-SameTables ts now (answered r) s = SameTables-refl s
    turn-SameTables ts now (profiles j) s = SameTables-refl s
    turn-SameTables ts now gone s = SameTables-refl s
    turn-SameTables ts now joins s = SameTables-refl s
    turn-SameTables ts now ended s = SameTables-refl s
    turn-SameTables ts now t s =
        let (e, failing) = closed s.db.calls in
        rw (call, failing) (record { jobs = refl; profiles = refl })

    turn_at-SameTables :
        (i now : ℕ) (found : Option (Task F)) (p : Pool fl env rt)
        → SameTables p.system (turn_at fl env rt i now found p).system
    turn_at-SameTables i now none p = SameTables-refl p.system
    turn_at-SameTables i now (some t) p = turn-SameTables p.tasks now t p.system

    quit_at-SameTables :
        (i : ℕ) (found : Option (Task F)) (p : Pool fl env rt)
        → SameTables p.system (quit_at fl env rt i found p).system
    quit_at-SameTables i none p = SameTables-refl p.system
    quit_at-SameTables i (some t) p = SameTables-refl p.system

    happens-SameTables :
        (e : Event fl env rt) (p : Pool fl env rt)
        → SameTables p.system (happens fl env rt e p).system
    unfolding happens
    happens-SameTables (arrives id now req key) p = SameTables-refl p.system
    happens-SameTables calls_stop p = SameTables-refl p.system
    happens-SameTables (turns i now) p = turn_at-SameTables i now (get_elem? p.tasks i) p
    happens-SameTables (quits i) p = quit_at-SameTables i (get_elem? p.tasks i) p

    pub play-SameTables :
        (es : List (Event fl env rt)) (p : Pool fl env rt)
        → SameTables p.system (play fl env rt es p).system
    unfolding play
    play-SameTables [] p = SameTables-refl p.system
    play-SameTables (e ∷ es) p =
        let first = happens-SameTables e p in
        let rest = play-SameTables es (happens fl env rt e p) in
        record { jobs = rest.jobs ∙ first.jobs; profiles = rest.profiles ∙ first.profiles }
