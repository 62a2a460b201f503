-- ===== src/Worker/Tasks/Owners.antt =====
-- Under every schedule of the goroutines, an id is in one place: in the channel, or with the one goroutine that
-- is about to send it or has taken it.
use data_profiler.Prelude.{
  ℕ, zero, suc, ◌+◌, ◌≤◌, ◌≡◌, ◌⊎◌, refl, sym, inl, inr, Bool, true, false, Option, none, some,
  List, [], ◌∷◌, ◌++◌, Str, str_eq, str_eq_iff, length, get_elem?, set, replicate, All, Bool-cases,
  arith,
}
use data_profiler.Prelude.Int.{ℤ}
use data_profiler.Prelude.Float.{Float64}
use data_profiler.Domain.{Job}
use data_profiler.Store.{Env, Db}
use data_profiler.Store.Index.{Entry, index, IsUnique, HasId}
use data_profiler.Worker.{System, Runtime, capacity, new_job, new_manager, start}
use data_profiler.Worker.Valid.{IsValid, start-IsValid}
use data_profiler.Worker.Reach.{new_manager-IsValid}
use data_profiler.Worker.Tasks.{
  Task, waits, gone, joins, drains, stops, Pool, Event, arrives, calls_stop, turns, quits,
  asks_with, is_idle, turn_among, put_back, turn_at, quit, quit_at, happens, play, launch,
}
use data_profiler.Worker.Tasks.Moves.{occurs, holds, Hands, passes, brings, Moves, turn-Moves}
use data_profiler.Worker.Tasks.Started.{start-occurs}

module _ {F : Type 0} where
  -- How many goroutines have an id.
  abbrev pub held : Str → List (Task F) → ℕ
  held id [] = 0
  held id (t ∷ ts) = occurs id (holds t) + held id ts

  held-append : (id : Str) (ts us : List (Task F)) → held id (ts ++ us) ≡ held id ts + held id us
  held-append id [] us = omega arith
  held-append id (t ∷ ts) us = omega (arith, held-append id ts us)

  held-set :
      (id : Str) (ts : List (Task F)) (i : ℕ) (t t' : Task F)
      → get_elem? ts i ≡ some t
      → held id (set ts i t') + occurs id (holds t) ≡ held id ts + occurs id (holds t')
  held-set id [] i t t' e = cc e
  held-set id (u ∷ ts) zero t t' e = let same : u ≡ t = cc e in rw same (omega arith)
  held-set id (u ∷ ts) (suc i) t t' e = omega (arith, held-set id ts i t t' e)

held-workers : (F : Type 0) (id : Str) (n : ℕ) → held {F = F} id (replicate n waits) ≡ 0
held-workers F id zero = refl
held-workers F id (suc n) = omega (arith, held-workers F id n)

known_ids :
    (ix : List Entry) (q : List Str)
    → ((id : Str) → (occurs id q ≡ 0) ⊎ HasId id ix)
    → All (λ id. HasId id ix) q
known_ids ix [] h = tt
known_ids ix (x ∷ q) h = (first (h x), known_ids ix q (λ id. rest id (h id)))
  where
    first : (occurs x (x ∷ q) ≡ 0) ⊎ HasId x ix → HasId x ix
    first (inl none_of) =
        let same : str_eq x x ≡ true = (str_eq_iff x x).1 refl in
        let no : 1 + occurs x q ≡ 0 = rw same at none_of in absurd (omega (arith, no))
    first (inr i) = i

    rest : (id : Str) → (occurs id (x ∷ q) ≡ 0) ⊎ HasId id ix → (occurs id q ≡ 0) ⊎ HasId id ix
    rest id (inl none_of) = inl (omega (arith, none_of))
    rest id (inr i) = inr i

ids_known :
    (ix : List Entry) (q : List Str)
    → All (λ id. HasId id ix) q
    → (id : Str) → (occurs id q ≡ 0) ⊎ HasId id ix
ids_known ix [] a id = inl refl
ids_known ix (x ∷ q) a id = elim (Bool-cases (str_eq x id)) [
  | inl same ↦ let eq : x ≡ id = (str_eq_iff x id).0 same in inr (rw (sym eq) a.0)
  | inr other ↦ elim (ids_known ix q a.1 id) [
    | inl nowhere ↦ inl (rw other (omega (arith, nowhere)))
    | inr i ↦ inr i
  ]
]

module _ (fl : Float64) (env : Env fl.F) (rt : Runtime fl) where
  open fl use {F}

  -- How many places an id is in.
  abbrev pub places : Str → Pool fl env rt → ℕ
  places id p = occurs id p.system.queue + held id p.tasks

  record IsOwned (p : Pool fl env rt) : Type 0 where
    unique : IsUnique (index p.system.db.jobs)
    bounded : length p.system.queue ≤ capacity
    alone : (id : Str) → places id p ≤ 1
    known : (id : Str) → (places id p ≡ 0) ⊎ HasId id (index p.system.db.jobs)

  -- Goroutine `i` has moved.
  put_back-IsOwned :
      (i : ℕ) (t : Task F) (r : Task F × System) (p : Pool fl env rt)
      → get_elem? p.tasks i ≡ some t
      → Moves t p.system r
      → IsOwned p
      → IsOwned (put_back fl env rt i p.tasks r)
  put_back-IsOwned i t (t', s) p at m v = record {
    unique = m.rows.unique v.unique;
    bounded = m.bounded v.bounded;
    alone = λ id. alone id (m.hands id) (held-set id p.tasks i t t' at) (v.known id);
    known = λ id. known id (m.hands id) (held-set id p.tasks i t t' at) (v.known id);
  }
    where
      alone :
          (id : Str)
          → Hands id t p.system (t', s)
          → held id (set p.tasks i t') + occurs id (holds t)
            ≡ held id p.tasks + occurs id (holds t')
          → (places id p ≡ 0) ⊎ HasId id (index p.system.db.jobs)
          → occurs id s.queue + held id (set p.tasks i t') ≤ 1
      alone id (passes le) moved k = omega (arith, le, moved, v.alone id)
      alone id (brings new there le) moved (inl nowhere) = omega (arith, le, moved, nowhere)
      alone id (brings new there le) moved (inr old) = absurd (new old)

      known :
          (id : Str)
          → Hands id t p.system (t', s)
          → held id (set p.tasks i t') + occurs id (holds t)
            ≡ held id p.tasks + occurs id (holds t')
          → (places id p ≡ 0) ⊎ HasId id (index p.system.db.jobs)
          → (occurs id s.queue + held id (set p.tasks i t') ≡ 0) ⊎ HasId id (index s.db.jobs)
      known id (passes le) moved (inl nowhere) = inl (omega (arith, le, moved, nowhere))
      known id (passes le) moved (inr old) = inr (m.rows.ids id old)
      known id (brings new there le) moved k = inr there

  idle-Moves : (t t' : Task F) (s : System) → holds t ≡ [] → holds t' ≡ [] → Moves t s (t', s)
  idle-Moves t t' s e e' = record {
    rows = record { unique = λ u. u; ids = λ id h. h; entries = λ e h. h };
    bounded = λ b. b;
    hands = λ id. passes (rw (e, e') (omega arith));
  }

  same-Moves : (t : Task F) (s : System) → Moves t s (t, s)
  same-Moves t s = record {
    rows = record { unique = λ u. u; ids = λ id h. h; entries = λ e h. h };
    bounded = λ b. b;
    hands = λ id. passes (omega arith);
  }

  pub turn_among-Moves :
      (ts : List (Task F)) (now : ℕ) (t : Task F) (s : System)
      → Moves t s (turn_among fl env rt ts now t s)
  turn_among-Moves ts now joins s = elim (Bool-cases (is_idle fl env rt ts)) [
    | inl e ↦ rw e (idle-Moves joins drains s refl refl)
    | inr e ↦ rw e (idle-Moves joins joins s refl refl)
  ]
  turn_among-Moves ts now t s = turn-Moves fl env rt now t s

  joins_pool :
      (t : Task F) (p : Pool fl env rt)
      → holds t ≡ []
      → IsOwned p
      → IsOwned (record p { tasks = p.tasks ++ t ∷ [] })
  joins_pool t p e v = record {
    unique = v.unique;
    bounded = v.bounded;
    alone = λ id. rw (same id) (v.alone id);
    known = λ id. rw (same id) (v.known id);
  }
    where
      same : (id : Str) → held id (p.tasks ++ t ∷ []) ≡ held id p.tasks
      same id =
          let none_of : occurs id (holds t) ≡ 0 = rw e refl in
          omega (arith, held-append id p.tasks (t ∷ []), none_of)

  holds-asks_with : (key : Str) (j : Job F) → holds (asks_with key j) ≡ []
  holds-asks_with [] j = refl
  holds-asks_with (c ∷ key) j = refl

  quit-Moves : (b : Bool) (t : Task F) (s : System) → Moves t s (quit fl env rt b t, s)
  quit-Moves true waits s = idle-Moves waits gone s refl refl
  quit-Moves true t s = same-Moves t s
  quit-Moves false t s = same-Moves t s

  turn_at-IsOwned :
      (i now : ℕ) (found : Option (Task F)) (p : Pool fl env rt)
      → get_elem? p.tasks i ≡ found
      → IsOwned p
      → IsOwned (turn_at fl env rt i now found p)
  turn_at-IsOwned i now none p at v = v
  turn_at-IsOwned i now (some t) p at v =
      put_back-IsOwned i t (turn_among fl env rt p.tasks now t p.system) p at
        (turn_among-Moves p.tasks now t p.system) v

  quit_at-IsOwned :
      (i : ℕ) (found : Option (Task F)) (p : Pool fl env rt)
      → get_elem? p.tasks i ≡ found
      → IsOwned p
      → IsOwned (quit_at fl env rt i found p)
  quit_at-IsOwned i none p at v = v
  quit_at-IsOwned i (some t) p at v =
      put_back-IsOwned i t (quit fl env rt p.system.stopped t, p.system) p at
        (quit-Moves p.system.stopped t p.system) v

  happens-IsOwned :
      (e : Event fl env rt) (p : Pool fl env rt) → IsOwned p → IsOwned (happens fl env rt e p)
  unfolding happens
  happens-IsOwned (arrives id now req key) p v =
      joins_pool (asks_with key (new_job fl env id now req key)) p
        (holds-asks_with key (new_job fl env id now req key)) v
  happens-IsOwned calls_stop p v = joins_pool stops p refl v
  happens-IsOwned (turns i now) p v = turn_at-IsOwned i now (get_elem? p.tasks i) p refl v
  happens-IsOwned (quits i) p v = quit_at-IsOwned i (get_elem? p.tasks i) p refl v

  play-IsOwned :
      (es : List (Event fl env rt)) (p : Pool fl env rt) → IsOwned p → IsOwned (play fl env rt es p)
  unfolding play
  play-IsOwned [] p v = v
  play-IsOwned (e ∷ es) p v = play-IsOwned es (happens fl env rt e p) (happens-IsOwned e p v)

  launch-IsOwned :
      (s : System) → IsValid s → ((id : Str) → occurs id s.queue ≤ 1) → IsOwned (launch fl env rt s)
  launch-IsOwned s v once = record {
    unique = v.unique;
    bounded = v.bounded;
    alone = λ id. omega (arith, once id, held-workers F id s.workers);
    known = λ id. elim (ids_known (index s.db.jobs) s.queue v.known id) [
      | inl nowhere ↦ inl (omega (arith, nowhere, held-workers F id s.workers))
      | inr i ↦ inr i
    ];
  }

  in_channel :
      (p : Pool fl env rt)
      → IsOwned p
      → All (λ id. HasId id (index p.system.db.jobs)) p.system.queue
  in_channel p v =
      known_ids (index p.system.db.jobs) p.system.queue
        λ id. elim (v.known id) [ inl nowhere ↦ inl (omega (arith, nowhere)) | inr i ↦ inr i ]

  -- The manager as main makes and starts it, with its workers.
  abbrev pub fresh_pool : Db → ℤ → ℤ → ℕ → Pool fl env rt
  fresh_pool d n stale_after now = launch fl env rt (start fl env now (new_manager d n stale_after))

  -- From a table whose rows have different ids and keys, once Start has returned, whatever requests come, whenever
  -- Stop is called, whichever statements fail and however the statements of the workers, of the requests and of
  -- Stop are interleaved: every id is in at most one place, the channel or the hands of one goroutine, so no two
  -- workers have one job, nor a worker and Stop; no two rows have one id or one key, the channel holds at most
  -- 1000 ids, and each of them has a row.
  pub play-exclusive :
      (d : Db) (n stale_after : ℤ) (now : ℕ) (es : List (Event fl env rt)) (id : Str)
      → IsUnique (index d.jobs)
      → (places id (play fl env rt es (fresh_pool d n stale_after now)) ≤ 1)
        × IsValid (play fl env rt es (fresh_pool d n stale_after now)).system
  unfolding new_manager
  play-exclusive d n stale_after now es id u =
      let made = new_manager d n stale_after in
      let begun = start-IsValid fl env now made (new_manager-IsValid fl env d n stale_after u) in
      let v = play-IsOwned es (fresh_pool d n stale_after now) (
        launch-IsOwned (start fl env now made) begun
          (λ x. start-occurs fl env x now made refl u)) in
      (
        v.alone id,
        record {
          unique = v.unique;
          bounded = v.bounded;
          known = in_channel (play fl env rt es (fresh_pool d n stale_after now)) v;
        },
      )
