-- ===== src/Worker/Tasks/Keys/Turns.antt =====
-- What a goroutine knows of the key of the job that it will answer with.
use data_profiler.Prelude.{
  ℕ, ◌≡◌, ◌||◌, refl, subst, inl, inr, not, none, some, List, [], ◌∷◌, Str, length, ltb, All,
  Bool-cases,
}
use data_profiler.Prelude.Float.{Float64}
use data_profiler.Domain.{Status, queued, running, completed, failed, Job, TableProfile}
use data_profiler.Store.{
  Result, ok, err, Env, Db, create_job, update_job, get_job, get_job_by_idempotency_key,
}
use data_profiler.Store.Index.{Entry, index}
use data_profiler.Store.Keeps.{Keeps}
use data_profiler.Worker.{System, Runtime, capacity, queue_full, on_db}
use data_profiler.Worker.Tasks.{
  Task, looks_up, checks, inserts, looks_again, announces, sends, withdraws, answered, waits, loads,
  begins, profiles, stops, joins, drains, cancels, next, refused, takes, drains_next, cancels_if,
  profiled, turn, turn_among, is_idle,
}
use data_profiler.Worker.Tasks.Keys.Table.{
  Held, Found, Inserted, get_job_by_idempotency_key-Found, create_job-Inserted,
}

module _ {F : Type 0} where
  -- What a goroutine knows of the job that it will answer with.
  abbrev pub Stored : List Entry → Task F → Type 0
  Stored ix (announces j) = Held j ix
  Stored ix (sends j) = Held j ix
  Stored ix (answered (ok j)) = Held j ix
  Stored ix t = Unit

  next-Stored :
      {A : Type 0} (r : Result A × System) (f : Str → Task F) (g : A → Task F)
      → ((e : Str) → Stored (index r.1.db.jobs) (f e))
      → ((a : A) → r.0 ≡ ok a → Stored (index r.1.db.jobs) (g a))
      → Stored (index (next r f g).1.db.jobs) (next r f g).0
  next-Stored (err e, s) f g hf hg = hf e
  next-Stored (ok a, s) f g hf hg = hg a refl

module _ (fl : Float64) (env : Env fl.F) (rt : Runtime fl) where
  open fl use {F}

  found_key :
      (key : Str) (s : System) (a : Job F)
      → (on_db fl env (get_job_by_idempotency_key env key) s).0 ≡ ok a
      → Held a (index (on_db fl env (get_job_by_idempotency_key env key) s).1.db.jobs)
  found_key key s a e =
      subst (λ r. Found env (r, (get_job_by_idempotency_key env key s.db).1)) e
        (get_job_by_idempotency_key-Found env key s.db)

  inserted_key :
      (j : Job F) (s : System) (u : Unit {0})
      → (on_db fl env (create_job env j) s).0 ≡ ok u
      → Held j (index (on_db fl env (create_job env j) s).1.db.jobs)
  inserted_key j s u e =
      subst (λ r. Inserted env j (r, (create_job env j s.db).1)) e (create_job-Inserted env j s.db)

  refused-Stored : (ix : List Entry) (key : Str) (j : Job F) (e : Str) → Stored ix (refused key j e)
  unfolding Stored
  refused-Stored ix [] j e = tt
  refused-Stored ix (c ∷ key) j e = tt

  -- A statement leaves the goroutine with a job that has its key.
  pub turn-Stored :
      (ts : List (Task F)) (now : ℕ) (t : Task F) (s : System)
      → Stored (index s.db.jobs) t
      → Stored
          (index (turn_among fl env rt ts now t s).1.db.jobs)
          (turn_among fl env rt ts now t s).0
  unfolding turn Stored
  turn-Stored ts now (looks_up j) s h =
      next-Stored (on_db fl env (get_job_by_idempotency_key env j.idempotency_key) s)
        (λ _. checks j) (λ existing. answered (ok existing)) (λ e. tt)
        (λ a e. found_key j.idempotency_key s a e)
  turn-Stored ts now (checks j) s h = elim (Bool-cases s.stopped) [
    | inl e ↦ rw e tt
    | inr e ↦ rw e tt
  ]
  turn-Stored ts now (inserts j) s h =
      next-Stored (on_db fl env (create_job env j) s) (λ e. refused j.idempotency_key j e)
        (λ _. announces j) (λ e. refused-Stored _ j.idempotency_key j e)
        (λ u e. inserted_key j s u e)
  turn-Stored ts now (looks_again j m) s h =
      next-Stored (on_db fl env (get_job_by_idempotency_key env j.idempotency_key) s)
        (λ _. answered (err m)) (λ existing. answered (ok existing)) (λ e. tt)
        (λ a e. found_key j.idempotency_key s a e)
  turn-Stored ts now (announces j) s h = elim (Bool-cases s.stopped) [
    | inl e ↦ rw e tt
    | inr e ↦ rw e h
  ]
  turn-Stored ts now (sends j) s h = elim (Bool-cases (ltb (length s.queue) capacity)) [
    | inl e ↦ rw e h
    | inr e ↦ rw e tt
  ]
  turn-Stored ts now (withdraws j) s h =
      next-Stored
        (on_db fl env
          (update_job env
            (record j { status = failed; error = queue_full; finished_at = some now }))
          s)
        (λ e. answered (err e)) (λ _. answered (err queue_full)) (λ e. tt) (λ a e. tt)
  turn-Stored ts now (answered r) s h = h
  turn-Stored ts now waits s h = go s.queue
    where
      go : (q : List Str) → Stored (index (takes {F = F} q s).1.db.jobs) (takes {F = F} q s).0
      go [] = tt
      go (x ∷ q) = tt
  turn-Stored ts now (loads id) s h =
      next-Stored (on_db fl env (get_job env id) s) (λ _. waits)
        (λ j.
          begins
            (record j { status = running; error = []; started_at = some now; finished_at = none }))
        (λ e. tt) (λ a e. tt)
  turn-Stored ts now (begins j) s h =
      next-Stored (on_db fl env (update_job env j) s) (λ _. waits) (λ _. profiles j) (λ e. tt)
        (λ a e. tt)
  turn-Stored ts now (profiles j) s h = go (rt.profile_source j.request)
    where
      go : (r : Result (TableProfile F)) → Stored (index s.db.jobs) (profiled fl env rt j now r)
      go (err e) = tt
      go (ok p) = tt
  turn-Stored ts now joins s h = elim (Bool-cases (is_idle fl env rt ts)) [
    | inl e ↦ rw e tt
    | inr e ↦ rw e tt
  ]
  turn-Stored ts now stops s h = elim (Bool-cases (not s.started || s.stopped)) [
    | inl e ↦ rw e tt
    | inr e ↦ rw e tt
  ]
  turn-Stored ts now drains s h = go s.queue
    where
      go :
          (q : List Str)
          → Stored (index (drains_next {F = F} q s).1.db.jobs) (drains_next {F = F} q s).0
      go [] = tt
      go (x ∷ q) = tt
  turn-Stored ts now (cancels id) s h =
      next-Stored (on_db fl env (get_job env id) s) (λ _. drains) (λ j. cancels_if j.status j)
        (λ e. tt) (λ a e. go a a.status)
    where
      go :
          (a : Job F) (status : Status)
          → Stored (index (on_db fl env (get_job env id) s).1.db.jobs) (cancels_if status a)
      go a queued = tt
      go a running = tt
      go a completed = tt
      go a failed = tt
  turn-Stored ts now t s h = tt

  Held-Keeps :
      {d d' : Db} → Keeps d d' → (j : Job F) → Held j (index d.jobs) → Held j (index d'.jobs)
  Held-Keeps k j (inl e) = inl e
  Held-Keeps k j (inr h) = inr (k.entries (j.id, some j.idempotency_key) h)

  Stored-Keeps :
      {d d' : Db} → Keeps d d' → (t : Task F) → Stored (index d.jobs) t → Stored (index d'.jobs) t
  unfolding Stored
  Stored-Keeps k (announces j) h = Held-Keeps k j h
  Stored-Keeps k (sends j) h = Held-Keeps k j h
  Stored-Keeps k (answered (ok j)) h = Held-Keeps k j h
  Stored-Keeps k (answered (err e)) h = tt
  Stored-Keeps k t h = tt

  pub All-Stored :
      {d d' : Db}
      → Keeps d d'
      → (ts : List (Task F)) → All (Stored (index d.jobs)) ts
      → All (Stored (index d'.jobs)) ts
  All-Stored k [] a = tt
  All-Stored k (t ∷ ts) a = (Stored-Keeps k t a.0, All-Stored k ts a.1)
