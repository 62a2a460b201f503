-- ===== src/Worker/Tasks/Answers/Play.antt =====
-- A request among the other goroutines.
use data_profiler.Prelude.{
  ℕ, ◌+◌, ◌-◌, ◌≤◌, ◌<◌, ◌≡◌, refl, Bool, true, false, Option, none, some, List, [], ◌∷◌, ◌++◌, Str,
  length, get_elem?, set, ◌==◌, get_elem?-set, get_elem?-set_other, get_elem?-lt, get_elem?-append,
  ◌∙◌, Bool-cases, inl, inr, arith,
}
use data_profiler.Prelude.Float.{Float64}
use data_profiler.Domain.{ProfileRequest, Job}
use data_profiler.Store.{Env}
use data_profiler.Worker.{Runtime, new_job}
use data_profiler.Worker.Tasks.{
  Task, looks_up, checks, inserts, looks_again, announces, sends, withdraws, answered, waits, stops,
  Pool, Event, arrives, calls_stop, turns, quits, turn_at, turn_among, asks_with, quit, quit_at,
  happens, play,
}
use data_profiler.Worker.Tasks.Answers.{remaining, is_request, is_answered, own_turns}
use data_profiler.Worker.Tasks.Answers.Turns.{turn-Nears}

module _ (fl : Float64) (env : Env fl.F) (rt : Runtime fl) where
  open fl use {F}

  -- Goroutine `i` is a request with at most `n` statements left.
  record Has (i n : ℕ) (ts : List (Task F)) : Type 0 where
    task : Task F
    at : get_elem? ts i ≡ some task
    request : is_request task ≡ true
    left : remaining task ≤ n

  quit-same : (b : Bool) (t : Task F) → is_request t ≡ true → quit fl env rt b t ≡ t
  quit-same true waits h = cc h
  quit-same true t h = refl
  quit-same false t h = refl

  -- Another goroutine moves.
  set_other-Has :
      (i k n : ℕ) (t : Task F) (ts : List (Task F))
      → (k == i) ≡ false
      → Has i n ts
      → Has i n (set ts k t)
  set_other-Has i k n t ts other h = record {
    task = h.task;
    at = get_elem?-set_other ts k i t other ∙ h.at;
    request = h.request;
    left = h.left;
  }

  -- The goroutine itself moves.
  set_own-Has :
      (i n : ℕ) (t : Task F) (ts : List (Task F))
      → i < length ts
      → is_request t ≡ true
      → remaining t ≤ n
      → Has i n (set ts i t)
  set_own-Has i n t ts short request left = record {
    task = t;
    at = get_elem?-set ts i t short;
    request = request;
    left = left;
  }

  turn_at-Has :
      (i n now : ℕ) (t : Task F) (p : Pool fl env rt)
      → get_elem? p.tasks i ≡ some t
      → is_request t ≡ true
      → remaining t ≤ n
      → Has i (n - 1) (turn_at fl env rt i now (get_elem? p.tasks i) p).tasks
  turn_at-Has i n now t p at request left =
      let r = turn_among fl env rt p.tasks now t p.system in
      let step = turn-Nears fl env rt p.tasks now t p.system request in
      rw at (
        set_own-Has i (n - 1) r.0 p.tasks (get_elem?-lt p.tasks i t at) step.request
          (let fewer = step.fewer in omega (arith, fewer, left)))

  quit_at-Has :
      (i n : ℕ) (t : Task F) (p : Pool fl env rt)
      → get_elem? p.tasks i ≡ some t
      → is_request t ≡ true
      → remaining t ≤ n
      → Has i n (quit_at fl env rt i (get_elem? p.tasks i) p).tasks
  quit_at-Has i n t p at request left =
      let same = quit-same p.system.stopped t request in
      rw (at, same) (set_own-Has i n t p.tasks (get_elem?-lt p.tasks i t at) request left)

  turn_other-Has :
      (i k n now : ℕ) (found : Option (Task F)) (p : Pool fl env rt)
      → (k == i) ≡ false
      → Has i n p.tasks
      → Has i n (turn_at fl env rt k now found p).tasks
  turn_other-Has i k n now none p other h = h
  turn_other-Has i k n now (some t) p other h = set_other-Has i k n _ p.tasks other h

  quit_other-Has :
      (i k n : ℕ) (found : Option (Task F)) (p : Pool fl env rt)
      → (k == i) ≡ false
      → Has i n p.tasks
      → Has i n (quit_at fl env rt k found p).tasks
  quit_other-Has i k n none p other h = h
  quit_other-Has i k n (some t) p other h = set_other-Has i k n _ p.tasks other h

  append-Has : (i n : ℕ) (ts us : List (Task F)) → Has i n ts → Has i n (ts ++ us)
  append-Has i n ts us h = record {
    task = h.task;
    at = get_elem?-append ts us i h.task h.at;
    request = h.request;
    left = h.left;
  }

  less-Has : (i n m : ℕ) (ts : List (Task F)) → n ≤ m → Has i n ts → Has i m ts
  less-Has i n m ts le h = record {
    task = h.task;
    at = h.at;
    request = h.request;
    left = let left = h.left in omega (arith, left, le);
  }

  same-Has : (i n : ℕ) (ts : List (Task F)) → Has i n ts → Has i (n - 0) ts
  same-Has i n ts h = less-Has i n (n - 0) ts (omega arith) h

  -- An event takes away a statement if it is the goroutine's own.
  happens-Has :
      (i n : ℕ) (e : Event fl env rt) (p : Pool fl env rt)
      → Has i n p.tasks
      → Has i (n - own_turns fl env rt i (e ∷ [])) (happens fl env rt e p).tasks
  unfolding happens own_turns
  happens-Has i n (arrives id now req key) p h =
      same-Has i n _ (append-Has i n p.tasks (asks_with key (new_job fl env id now req key) ∷ []) h)
  happens-Has i n calls_stop p h = same-Has i n _ (append-Has i n p.tasks (stops ∷ []) h)
  happens-Has i n (turns k now) p h = elim (Bool-cases (k == i)) [
    | inl same ↦
        let eq : k ≡ i = ground arith in
        rw (same, eq) (turn_at-Has i n now h.task p h.at h.request h.left)
    | inr other ↦
        rw other (same-Has i n _ (turn_other-Has i k n now (get_elem? p.tasks k) p other h))
  ]
  happens-Has i n (quits k) p h = elim (Bool-cases (k == i)) [
    | inl same ↦
        let eq : k ≡ i = ground arith in
        rw eq (same-Has i n _ (quit_at-Has i n h.task p h.at h.request h.left))
    | inr other ↦ same-Has i n _ (quit_other-Has i k n (get_elem? p.tasks k) p other h)
  ]

  own_turns-cons :
      (i : ℕ) (e : Event fl env rt) (es : List (Event fl env rt))
      → own_turns fl env rt i (e ∷ es) ≡ own_turns fl env rt i (e ∷ []) + own_turns fl env rt i es
  unfolding own_turns
  own_turns-cons i (arrives id now req key) es = omega arith
  own_turns-cons i calls_stop es = omega arith
  own_turns-cons i (turns k now) es = omega arith
  own_turns-cons i (quits k) es = omega arith

  play-Has :
      (i n : ℕ) (es : List (Event fl env rt)) (p : Pool fl env rt)
      → Has i n p.tasks
      → Has i (n - own_turns fl env rt i es) (play fl env rt es p).tasks
  unfolding play own_turns
  play-Has i n [] p h = less-Has i n (n - own_turns fl env rt i []) p.tasks (omega arith) h
  play-Has i n (e ∷ es) p h =
      let rest =
        play-Has i (n - own_turns fl env rt i (e ∷ [])) es (happens fl env rt e p)
          (happens-Has i n e p h) in
      less-Has i (n - own_turns fl env rt i (e ∷ []) - own_turns fl env rt i es)
        (n - own_turns fl env rt i (e ∷ es)) _ (omega (arith, own_turns-cons i e es)) rest

  done-is_answered :
      (t : Task F) → is_request t ≡ true → remaining t ≤ 0 → is_answered (some t) ≡ true
  unfolding remaining
  done-is_answered (answered r) h left = refl
  done-is_answered (looks_up j) h left = absurd (omega (arith, left))
  done-is_answered (checks j) h left = absurd (omega (arith, left))
  done-is_answered (inserts j) h left = absurd (omega (arith, left))
  done-is_answered (looks_again j e) h left = absurd (omega (arith, left))
  done-is_answered (announces j) h left = absurd (omega (arith, left))
  done-is_answered (sends j) h left = absurd (omega (arith, left))
  done-is_answered (withdraws j) h left = absurd (omega (arith, left))
  done-is_answered t h left = cc h

  arrived :
      (ts : List (Task F)) (key : Str) (j : Job F) → Has (length ts) 6 (ts ++ asks_with key j ∷ [])
  unfolding remaining
  arrived [] [] j = record { task = checks j; at = refl; request = refl; left = omega arith }
  arrived [] (c ∷ key) j = record {
    task = looks_up j;
    at = refl;
    request = refl;
    left = omega arith;
  }
  arrived (t ∷ ts) key j =
      let rest = arrived ts key j in
      record { task = rest.task; at = rest.at; request = rest.request; left = rest.left }

  -- A request that comes is answered once its own goroutine has run six statements, whatever the other
  -- goroutines do between them, whichever statements fail, and whether or not the manager is stopped.
  pub play-answers :
      (p : Pool fl env rt) (id : Str) (now : ℕ) (req : ProfileRequest F) (key : Str)
      (es : List (Event fl env rt))
      → 6 ≤ own_turns fl env rt (length p.tasks) es
      → is_answered
          (get_elem? (play fl env rt (arrives id now req key ∷ es) p).tasks (length p.tasks))
        ≡ true
  unfolding play happens
  play-answers p id now req key es enough =
      let n = length p.tasks in
      let h =
        play-Has n 6 es (happens fl env rt (arrives id now req key) p)
          (arrived p.tasks key (new_job fl env id now req key)) in
      rw h.at (done-is_answered h.task h.request (let left = h.left in omega (arith, left, enough)))
