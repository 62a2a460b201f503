-- ===== src/Worker/Tasks/Moves.antt =====
-- What one statement of a goroutine does to the ids: which it hands on, and which it brings in.
use data_profiler.Prelude.{
  ℕ, ◌+◌, ◌≤◌, ◌≡◌, refl, sym, ◌∙◌, subst, inl, inr, not, ◌||◌, some, List, [], ◌∷◌, ◌++◌, Str,
  str_eq, str_eq_iff, length, length-append, ltb, Bool-cases, arith, if◌then◌else◌,
}
use data_profiler.Prelude.Float.{Float64}
use data_profiler.Domain.{Status, queued, running, completed, failed, Job, TableProfile}
use data_profiler.Store.{
  Result, ok, err, Env, create_job, update_job, get_job, get_job_by_idempotency_key, save_profile,
  get_previous_profile,
}
use data_profiler.Store.Index.{index, HasId}
use data_profiler.Store.Keeps.{
  HasRow, create_job-HasRow, create_job-Keeps, update_job-Keeps, get_job-Keeps,
  get_job_by_idempotency_key-Keeps, get_previous_profile-Keeps, save_profile-Keeps, Keeps,
}
use data_profiler.Worker.{
  System, Runtime, capacity, queue_full, cancelled, judge, with_drift, outcome, on_db,
}
use data_profiler.Worker.Transfers.{KeepsQueue, KeepsQueue-refl, on_db-KeepsQueue}
use data_profiler.Worker.Tasks.Calls.{WasFresh, create_job-WasFresh, AsAsked, get_job-AsAsked}
use data_profiler.Worker.Tasks.{
  Task, looks_up, checks, inserts, looks_again, announces, sends, withdraws, answered, waits, loads,
  begins, profiles, compares, saves, settles, gone, stops, joins, drains, cancels, fails, ended,
  next, refused, takes, drains_next, cancels_if, profiled, turn,
}

-- How often an id stands in a list.
abbrev pub occurs : Str → List Str → ℕ
occurs id [] = 0
occurs id (x ∷ l) = (if str_eq x id then 1 else 0) + occurs id l

pub occurs-append : (id : Str) (l k : List Str) → occurs id (l ++ k) ≡ occurs id l + occurs id k
occurs-append id [] k = omega arith
occurs-append id (x ∷ l) k = omega (arith, occurs-append id l k)

-- The id that a goroutine is about to hand to the channel, or has taken from it.
abbrev pub holds : {F : Type 0} → Task F → List Str
holds (announces j) = j.id ∷ []
holds (sends j) = j.id ∷ []
holds (loads id) = id ∷ []
holds (begins j) = j.id ∷ []
holds (profiles j) = j.id ∷ []
holds (compares j q) = j.id ∷ []
holds (saves j q) = j.id ∷ []
holds (settles j r) = j.id ∷ []
holds (cancels id) = id ∷ []
holds (fails j) = j.id ∷ []
holds _ = []

-- An id is nowhere new, or it is that of a row that is new.
pub data Hands {F : Type 0} (id : Str) (t : Task F) (s : System) (r : Task F × System)
    : Type 0 where
  passes :
      occurs id r.1.queue + occurs id (holds r.0) ≤ occurs id s.queue + occurs id (holds t)
      → Hands id t s r
  brings :
      ¬ HasId id (index s.db.jobs)
      → HasId id (index r.1.db.jobs)
      → occurs id r.1.queue + occurs id (holds r.0) ≤ occurs id s.queue + 1
      → Hands id t s r

pub record Moves {F : Type 0} (t : Task F) (s : System) (r : Task F × System) : Type 0 where
  pub rows : Keeps s.db r.1.db
  pub bounded : length s.queue ≤ capacity → length r.1.queue ≤ capacity
  pub hands : (id : Str) → Hands id t s r

module _ {F : Type 0} where
  -- The goroutine's own variables, and nothing that is shared.
  stays :
      (t t' : Task F) (s : System)
      → ((id : Str) → occurs id (holds t') ≤ occurs id (holds t))
      → Moves t s (t', s)
  stays t t' s less = record {
    rows = (KeepsQueue-refl s).rows;
    bounded = λ b. b;
    hands = λ id. passes (omega (arith, less id));
  }

  -- A call of the store that leaves the channel alone.
  calls :
      (t t' : Task F) (s s' : System)
      → KeepsQueue s s'
      → ((id : Str) → occurs id (holds t') ≤ occurs id (holds t))
      → Moves t s (t', s')
  calls t t' s s' k less = record {
    rows = k.rows;
    bounded = λ b. rw k.queue b;
    hands = λ id. passes (rw k.queue (omega (arith, less id)));
  }

  next-Moves :
      {A : Type 0} (t : Task F) (s : System) (r : Result A × System) (f : Str → Task F)
      (g : A → Task F)
      → KeepsQueue s r.1
      → ((e : Str) → holds (f e) ≡ [])
      → ((a : A) → r.0 ≡ ok a → (id : Str) → occurs id (holds (g a)) ≤ occurs id (holds t))
      → Moves t s (next r f g)
  next-Moves t s (err e, s') f g k empty less =
      calls t (f e) s s' k (λ id. rw (empty e) (omega arith))
  next-Moves t s (ok a, s') f g k empty less = calls t (g a) s s' k (less a refl)

  takes-Moves : (q : List Str) (s : System) → s.queue ≡ q → Moves {F = F} waits s (takes q s)
  takes-Moves [] s e = stays waits waits s (λ id. omega arith)
  takes-Moves (x ∷ ids) s e = record {
    rows = (KeepsQueue-refl s).rows;
    bounded = λ b. let b' : length (x ∷ ids) ≤ capacity = rw e at b in omega (arith, b');
    hands = λ id. passes (rw e (omega arith));
  }

  drains_next-Moves :
      (q : List Str) (s : System) → s.queue ≡ q → Moves {F = F} drains s (drains_next q s)
  drains_next-Moves [] s e = stays drains ended s (λ id. omega arith)
  drains_next-Moves (x ∷ ids) s e = record {
    rows = (KeepsQueue-refl s).rows;
    bounded = λ b. let b' : length (x ∷ ids) ≤ capacity = rw e at b in omega (arith, b');
    hands = λ id. passes (rw e (omega arith));
  }

module _ (fl : Float64) (env : Env fl.F) (rt : Runtime fl) where
  open fl use {F}

  -- CreateJob brings in the new job's id.
  inserts-Moves :
      (j : Job F) (s : System) (r : Result (Unit {0}) × System)
      → KeepsQueue s r.1
      → WasFresh env j.id s.db.jobs (r.0, r.1.db)
      → HasRow env j.id (r.0, r.1.db)
      → Moves (inserts j) s (next r (λ e. refused j.idempotency_key j e) (λ _. announces j))
  inserts-Moves j s (err e, s') k fresh there = go j.idempotency_key
    where
      go : (key : Str) → Moves (inserts j) s (refused key j e, s')
      go [] = calls (inserts j) (answered (err e)) s s' k (λ id. omega arith)
      go (c ∷ key) = calls (inserts j) (looks_again j e) s s' k (λ id. omega arith)
  inserts-Moves j s (ok u, s') k fresh there = record {
    rows = k.rows;
    bounded = λ b. rw k.queue b;
    hands = λ id. elim (Bool-cases (str_eq j.id id)) [
      | inl same ↦
          let own : j.id ≡ id = (str_eq_iff j.id id).0 same in
          brings (subst (λ x. ¬ HasId x (index s.db.jobs)) own fresh)
            (subst (λ x. HasId x (index s'.db.jobs)) own there) (rw (same, k.queue) (omega arith))
      | inr other ↦ passes (rw (other, k.queue) (omega arith))
    ];
  }

  own :
      (id : Str) (j : Job F) (r : Result (Job F) × System)
      → AsAsked env id (r.0, r.1.db)
      → (a : Job F) → r.0 ≡ ok a
      → a.id ≡ id
  own id j (err e, s) h a eq = cc eq
  own id j (ok b, s) h a eq = let same : b.id ≡ a.id = cc eq in sym same ∙ h

  -- UpdateJob, whatever it returns, with the time of the end.
  writes :
      (now : ℕ) (t t' : Task F) (j : Job F) (s : System)
      → ((id : Str) → occurs id (holds t') ≤ occurs id (holds t))
      → Moves t s (t', (on_db fl env (update_job env (record j { finished_at = some now })) s).1)
  writes now t t' j s less =
      let j' : Job F = record j { finished_at = some now } in
      calls t t' s (on_db fl env (update_job env j') s).1
        (on_db-KeepsQueue fl env (update_job env j') s (update_job-Keeps env j' s.db)) less

  pub turn-Moves : (now : ℕ) (t : Task F) (s : System) → Moves t s (turn fl env rt now t s)
  unfolding turn
  turn-Moves now (looks_up j) s =
      next-Moves (looks_up j) s (on_db fl env (get_job_by_idempotency_key env j.idempotency_key) s)
        _ _
        (on_db-KeepsQueue fl env (get_job_by_idempotency_key env j.idempotency_key) s
          (get_job_by_idempotency_key-Keeps env j.idempotency_key s.db))
        (λ e. refl) (λ a eq id. omega arith)
  turn-Moves now (checks j) s = elim (Bool-cases s.stopped) [
    | inl e ↦ rw e (stays (checks j) _ _ (λ id. omega arith))
    | inr e ↦ rw e (stays (checks j) _ _ (λ id. omega arith))
  ]
  turn-Moves now (inserts j) s =
      inserts-Moves j s (on_db fl env (create_job env j) s)
        (on_db-KeepsQueue fl env (create_job env j) s (create_job-Keeps env j s.db))
        (create_job-WasFresh env j s.db) (create_job-HasRow env j s.db)
  turn-Moves now (looks_again j e) s =
      next-Moves (looks_again j e) s
        (on_db fl env (get_job_by_idempotency_key env j.idempotency_key) s) _ _
        (on_db-KeepsQueue fl env (get_job_by_idempotency_key env j.idempotency_key) s
          (get_job_by_idempotency_key-Keeps env j.idempotency_key s.db))
        (λ e. refl) (λ a eq id. omega arith)
  turn-Moves now (announces j) s = elim (Bool-cases s.stopped) [
    | inl e ↦ rw e (stays (announces j) _ _ (λ id. omega arith))
    | inr e ↦ rw e (stays (announces j) _ _ (λ id. omega arith))
  ]
  turn-Moves now (sends j) s = elim (Bool-cases (ltb (length s.queue) capacity)) [
    | inr e ↦ rw e (stays (sends j) _ _ (λ id. omega arith))
    | inl e ↦ rw e (record {
      rows = (KeepsQueue-refl s).rows;
      bounded = λ b. ground (arith, length-append s.queue (j.id ∷ []));
      hands = λ id. passes (omega (arith, occurs-append id s.queue (j.id ∷ [])));
    })
  ]
  turn-Moves now (withdraws j) s =
      let j' : Job F = record j { status = failed; error = queue_full; finished_at = some now } in
      next-Moves (withdraws j) s (on_db fl env (update_job env j') s) _ _
        (on_db-KeepsQueue fl env (update_job env j') s (update_job-Keeps env j' s.db)) (λ e. refl)
        (λ a eq id. omega arith)
  turn-Moves now (answered r) s = stays (answered r) (answered r) s (λ id. omega arith)
  turn-Moves now waits s = takes-Moves s.queue s refl
  turn-Moves now (loads id) s =
      next-Moves (loads id) s (on_db fl env (get_job env id) s) _ _
        (on_db-KeepsQueue fl env (get_job env id) s (get_job-Keeps env id s.db)) (λ e. refl)
        (λ a eq x.
          rw (own id a (on_db fl env (get_job env id) s) (get_job-AsAsked env id s.db) a eq)
            (omega arith))
  turn-Moves now (begins j) s =
      next-Moves (begins j) s (on_db fl env (update_job env j) s) _ _
        (on_db-KeepsQueue fl env (update_job env j) s (update_job-Keeps env j s.db)) (λ e. refl)
        (λ a eq id. omega arith)
  turn-Moves now (profiles j) s = go (rt.profile_source j.request)
    where
      go : (r : Result (TableProfile F)) → Moves (profiles j) s (profiled fl env rt j now r, s)
      go (err e) = stays (profiles j) (settles j (err e)) s (λ id. omega arith)
      go (ok p) = stays (profiles j) (compares j (judge fl env rt j now p)) s (λ id. omega arith)
  turn-Moves now (compares j q) s =
      let r = on_db fl env (get_previous_profile env q.schema q.table) s in
      calls (compares j q) (saves j (with_drift fl env rt r.0 q)) s r.1
        (on_db-KeepsQueue fl env (get_previous_profile env q.schema q.table) s
          (get_previous_profile-Keeps env q.schema q.table s.db))
        (λ id. omega arith)
  turn-Moves now (saves j q) s =
      let r = on_db fl env (save_profile env j.id q) s in
      calls (saves j q) (settles j r.0) s r.1
        (on_db-KeepsQueue fl env (save_profile env j.id q) s (save_profile-Keeps env j.id q s.db))
        (λ id. omega arith)
  turn-Moves now (settles j r) s =
      writes now (settles j r) waits (outcome fl env rt r j) s (λ id. omega arith)
  turn-Moves now gone s = stays gone gone s (λ id. omega arith)
  turn-Moves now stops s = elim (Bool-cases (not s.started || s.stopped)) [
    | inl e ↦ rw e (stays stops ended s (λ id. omega arith))
    | inr e ↦ rw e (record {
      rows = (KeepsQueue-refl s).rows;
      bounded = λ b. b;
      hands = λ id. passes (omega arith);
    })
  ]
  turn-Moves now joins s = stays joins joins s (λ id. omega arith)
  turn-Moves now drains s = drains_next-Moves s.queue s refl
  turn-Moves now (cancels id) s =
      next-Moves (cancels id) s (on_db fl env (get_job env id) s) _ _
        (on_db-KeepsQueue fl env (get_job env id) s (get_job-Keeps env id s.db)) (λ e. refl)
        (λ a eq x.
          go x a (own id a (on_db fl env (get_job env id) s) (get_job-AsAsked env id s.db) a eq)
            a.status)
    where
      go :
          (x : Str) (a : Job F)
          → a.id ≡ id
          → (status : Status)
          → occurs x (holds (cancels_if status a)) ≤ occurs x (holds {F = F} (cancels id))
      go x a same queued = rw same (omega arith)
      go x a same running = omega arith
      go x a same completed = omega arith
      go x a same failed = omega arith
  turn-Moves now (fails j) s =
      writes now (fails j) drains (record j { status = failed; error = cancelled }) s
        (λ id. omega arith)
  turn-Moves now ended s = stays ended ended s (λ id. omega arith)
