-- ===== src/Worker/Tasks/Keys/Requests.antt =====
-- The key of a request is that of every job that it is answered with.
use data_profiler.Prelude.{
  ℕ, suc, ◌≡◌, refl, subst, ◌∙◌, Bool, true, false, Option, none, some, List, [], ◌∷◌, ◌++◌, Str,
  length, ltb, get_elem?, set, ◌==◌, get_elem?-set, get_elem?-set_other, get_elem?-lt,
  get_elem?-append, Bool-cases, Option-cases, inl, inr, arith,
}
use data_profiler.Prelude.Float.{Float64}
use data_profiler.Domain.{failed, Job}
use data_profiler.Store.Tables.{JobRow, find_key}
use data_profiler.Store.{
  Result, ok, err, Env, Db, create_job, update_job, get_job_by_idempotency_key, scan_job,
  scan_found,
}
use data_profiler.Store.Keeps.{call-holds}
use data_profiler.Worker.{System, Runtime, capacity, queue_full, on_db, new_job}
use data_profiler.Worker.Tasks.{
  Task, looks_up, checks, inserts, looks_again, announces, sends, withdraws, answered, waits, stops,
  next, refused, Pool, Event, arrives, calls_stop, turns, quits, turn, turn_at, turn_among,
  asks_with, quit, quit_at, happens, play,
}

-- A request with the key, or its answer.
abbrev pub Asks : {F : Type 0} → Str → Task F → Type 0
Asks key (looks_up j) = j.idempotency_key ≡ key
Asks key (checks j) = j.idempotency_key ≡ key
Asks key (inserts j) = j.idempotency_key ≡ key
Asks key (looks_again j e) = j.idempotency_key ≡ key
Asks key (announces j) = j.idempotency_key ≡ key
Asks key (sends j) = j.idempotency_key ≡ key
Asks key (withdraws j) = j.idempotency_key ≡ key
Asks key (answered (ok j)) = j.idempotency_key ≡ key
Asks key (answered (err e)) = Unit
Asks key t = ⊥

next-Asks :
    {F A : Type 0} (key : Str) (r : Result A × System) (f : Str → Task F) (g : A → Task F)
    → ((e : Str) → Asks key (f e))
    → ((a : A) → r.0 ≡ ok a → Asks key (g a))
    → Asks key (next r f g).0
next-Asks key (err e, s) f g hf hg = hf e
next-Asks key (ok a, s) f g hf hg = hg a refl

module _ (fl : Float64) (env : Env fl.F) (rt : Runtime fl) where
  open fl use {F}

  HasKey : Str → Result (Job F) × Db → Type 0
  HasKey key (ok j, d) = j.idempotency_key ≡ key
  HasKey key (err e, d) = Unit

  scan_found-HasKey :
      (key : Str) (found : Option JobRow) (d : Db) → HasKey key (scan_found env key found, d)
  unfolding HasKey
  scan_found-HasKey key none d = tt
  scan_found-HasKey key (some r) d = elim (Option-cases (env.request_codec.unmarshal r.request)) [
    | inl e ↦ rw (scan_job, e) tt
    | inr (request, e) ↦ rw (scan_job, e) refl
  ]

  get_job_by_idempotency_key-HasKey :
      (key : Str) (d : Db) → HasKey key (get_job_by_idempotency_key env key d)
  unfolding get_job_by_idempotency_key HasKey
  get_job_by_idempotency_key-HasKey key d =
      call-holds env (HasKey key) (λ db. (scan_found env key (find_key key db.jobs), db)) d
        (λ e. tt) (scan_found-HasKey key (find_key key d.jobs) (record d { calls = suc d.calls }))

  found_key :
      (key k : Str) (s : System) (a : Job F)
      → k ≡ key
      → (on_db fl env (get_job_by_idempotency_key env k) s).0 ≡ ok a
      → a.idempotency_key ≡ key
  unfolding HasKey
  found_key key k s a same e =
      let own : a.idempotency_key ≡ k =
        subst (λ r. HasKey k (r, (get_job_by_idempotency_key env k s.db).1)) e
          (get_job_by_idempotency_key-HasKey k s.db) in
      own ∙ same

  refused-Asks :
      (key k : Str) (j : Job F) (e : Str) → j.idempotency_key ≡ key → Asks key (refused k j e)
  refused-Asks key [] j e h = tt
  refused-Asks key (c ∷ k) j e h = h

  turn-Asks :
      (key : Str) (ts : List (Task F)) (now : ℕ) (t : Task F) (s : System)
      → Asks key t
      → Asks key (turn_among fl env rt ts now t s).0
  unfolding turn
  turn-Asks key ts now (looks_up j) s h =
      next-Asks key (on_db fl env (get_job_by_idempotency_key env j.idempotency_key) s)
        (λ _. checks j) (λ existing. answered (ok existing)) (λ e. h)
        (λ a e. found_key key j.idempotency_key s a h e)
  turn-Asks key ts now (checks j) s h = elim (Bool-cases s.stopped) [
    | inl e ↦ rw e tt
    | inr e ↦ rw e h
  ]
  turn-Asks key ts now (inserts j) s h =
      next-Asks key (on_db fl env (create_job env j) s) (λ e. refused j.idempotency_key j e)
        (λ _. announces j) (λ e. refused-Asks key j.idempotency_key j e h) (λ u e. h)
  turn-Asks key ts now (looks_again j m) s h =
      next-Asks key (on_db fl env (get_job_by_idempotency_key env j.idempotency_key) s)
        (λ _. answered (err m)) (λ existing. answered (ok existing)) (λ e. tt)
        (λ a e. found_key key j.idempotency_key s a h e)
  turn-Asks key ts now (announces j) s h = elim (Bool-cases s.stopped) [
    | inl e ↦ rw e h
    | inr e ↦ rw e h
  ]
  turn-Asks key ts now (sends j) s h = elim (Bool-cases (ltb (length s.queue) capacity)) [
    | inl e ↦ rw e h
    | inr e ↦ rw e h
  ]
  turn-Asks key ts now (withdraws j) s h =
      next-Asks key
        (on_db fl env
          (update_job env
            (record j { status = failed; error = queue_full; finished_at = some now }))
          s)
        (λ e. answered (err e)) (λ _. answered (err queue_full)) (λ e. tt) (λ a e. tt)
  turn-Asks key ts now (answered r) s h = h
  turn-Asks key ts now t s h = absurd h

  quit-Asks : (key : Str) (b : Bool) (t : Task F) → Asks key t → Asks key (quit fl env rt b t)
  quit-Asks key true waits h = absurd h
  quit-Asks key true t h = h
  quit-Asks key false t h = h

  -- Goroutine `i` is such a request.
  pub record AsksAt (key : Str) (i : ℕ) (ts : List (Task F)) : Type 0 where
    pub task : Task F
    pub at : get_elem? ts i ≡ some task
    pub asks : Asks key task

  set_own-AsksAt :
      (key : Str) (i : ℕ) (t u : Task F) (ts : List (Task F))
      → get_elem? ts i ≡ some t
      → Asks key u
      → AsksAt key i (set ts i u)
  set_own-AsksAt key i t u ts at h = record {
    task = u;
    at = get_elem?-set ts i u (get_elem?-lt ts i t at);
    asks = h;
  }

  set_other-AsksAt :
      (key : Str) (i k : ℕ) (u : Task F) (ts : List (Task F))
      → (k == i) ≡ false
      → AsksAt key i ts
      → AsksAt key i (set ts k u)
  set_other-AsksAt key i k u ts other h = record {
    task = h.task;
    at = get_elem?-set_other ts k i u other ∙ h.at;
    asks = h.asks;
  }

  turn_at-AsksAt :
      (key : Str) (i k now : ℕ) (found : Option (Task F)) (p : Pool fl env rt)
      → (k == i) ≡ false
      → AsksAt key i p.tasks
      → AsksAt key i (turn_at fl env rt k now found p).tasks
  turn_at-AsksAt key i k now none p other h = h
  turn_at-AsksAt key i k now (some t) p other h = set_other-AsksAt key i k _ p.tasks other h

  quit_at-AsksAt :
      (key : Str) (i k : ℕ) (found : Option (Task F)) (p : Pool fl env rt)
      → (k == i) ≡ false
      → AsksAt key i p.tasks
      → AsksAt key i (quit_at fl env rt k found p).tasks
  quit_at-AsksAt key i k none p other h = h
  quit_at-AsksAt key i k (some t) p other h = set_other-AsksAt key i k _ p.tasks other h

  append-AsksAt :
      (key : Str) (i : ℕ) (ts us : List (Task F)) → AsksAt key i ts → AsksAt key i (ts ++ us)
  append-AsksAt key i ts us h = record {
    task = h.task;
    at = get_elem?-append ts us i h.task h.at;
    asks = h.asks;
  }

  happens-AsksAt :
      (key : Str) (i : ℕ) (e : Event fl env rt) (p : Pool fl env rt)
      → AsksAt key i p.tasks
      → AsksAt key i (happens fl env rt e p).tasks
  unfolding happens
  happens-AsksAt key i (arrives id now req k) p h =
      append-AsksAt key i p.tasks (asks_with k (new_job fl env id now req k) ∷ []) h
  happens-AsksAt key i calls_stop p h = append-AsksAt key i p.tasks (stops ∷ []) h
  happens-AsksAt key i (turns k now) p h = elim (Bool-cases (k == i)) [
    | inr other ↦ turn_at-AsksAt key i k now (get_elem? p.tasks k) p other h
    | inl same ↦
        let eq : k ≡ i = ground arith in
        let at = h.at in
        rw (eq, at)
          (set_own-AsksAt key i h.task (turn_among fl env rt p.tasks now h.task p.system).0 p.tasks
            h.at (turn-Asks key p.tasks now h.task p.system h.asks))
  ]
  happens-AsksAt key i (quits k) p h = elim (Bool-cases (k == i)) [
    | inr other ↦ quit_at-AsksAt key i k (get_elem? p.tasks k) p other h
    | inl same ↦
        let eq : k ≡ i = ground arith in
        let at = h.at in
        rw (eq, at)
          (set_own-AsksAt key i h.task (quit fl env rt p.system.stopped h.task) p.tasks h.at
            (quit-Asks key p.system.stopped h.task h.asks))
  ]

  pub play-AsksAt :
      (key : Str) (i : ℕ) (es : List (Event fl env rt)) (p : Pool fl env rt)
      → AsksAt key i p.tasks
      → AsksAt key i (play fl env rt es p).tasks
  unfolding play
  play-AsksAt key i [] p h = h
  play-AsksAt key i (e ∷ es) p h =
      play-AsksAt key i es (happens fl env rt e p) (happens-AsksAt key i e p h)

  pub arrived-AsksAt :
      (ts : List (Task F)) (key : Str) (j : Job F)
      → j.idempotency_key ≡ key
      → AsksAt key (length ts) (ts ++ asks_with key j ∷ [])
  arrived-AsksAt [] [] j e = record { task = checks j; at = refl; asks = e }
  arrived-AsksAt [] (c ∷ key) j e = record { task = looks_up j; at = refl; asks = e }
  arrived-AsksAt (t ∷ ts) key j e =
      let rest = arrived-AsksAt ts key j e in
      record { task = rest.task; at = rest.at; asks = rest.asks }
