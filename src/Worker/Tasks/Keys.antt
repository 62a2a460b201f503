-- ===== src/Worker/Tasks/Keys.antt =====
-- Under every schedule of the goroutines, the answers with one idempotency key are one job.
mod Table
mod Turns
mod Requests
use data_profiler.Prelude.{
  ℕ, suc, ◌≡◌, ◌≢◌, ◌⊎◌, ◌||◌, refl, sym, ap, ◌∙◌, subst, inl, inr, Bool, true, false, not, Option,
  none, some, List, [], ◌∷◌, ◌++◌, Str, str_eq_iff, length, ltb, get_elem?, All, All-append, All-at,
  All-set, All-replicate, Bool-cases, Option-cases,
}
use data_profiler.Prelude.Int.{ℤ}
use data_profiler.Prelude.Float.{Float64}
use data_profiler.Domain.{
  Status, queued, running, completed, failed, ProfileRequest, Job, TableProfile,
}
use data_profiler.Store.Tables.{JobRow, find_key, key_is, has_job, has_key}
use data_profiler.Store.{
  Result, ok, err, Env, Db, null_string, insert_job, create_job, update_job, get_job,
  get_job_by_idempotency_key, scan_job, scan_found,
}
use data_profiler.Store.Index.{
  Entry, index, index-append, IsUnique, MayCoexist, HasEntry, HasEntry-last,
}
use data_profiler.Store.Keeps.{call-holds, Keeps}
use data_profiler.Worker.{System, Runtime, capacity, queue_full, on_db, new_job, new_manager, start}
use data_profiler.Worker.Tasks.{
  Task, looks_up, checks, inserts, looks_again, announces, sends, withdraws, answered, waits, loads,
  begins, profiles, stops, joins, drains, cancels, next, refused, takes, drains_next, cancels_if,
  profiled, turn, turn_among, Pool, Event, arrives, calls_stop, turns, quits, asks_with, is_idle,
  turn_at, quit, quit_at, happens, play, launch,
}
use data_profiler.Worker.Tasks.Owners.{turn_among-Moves, fresh_pool, play-exclusive}
use data_profiler.Worker.Tasks.Keys.Requests.{Asks, AsksAt, play-AsksAt, arrived-AsksAt}
use data_profiler.Worker.Tasks.Keys.Table.{Held}
use data_profiler.Store.Entries.{one_key}
use data_profiler.Worker.Tasks.Keys.Turns.{Stored, turn-Stored, All-Stored}

module _ (fl : Float64) (env : Env fl.F) (rt : Runtime fl) where
  open fl use {F}

  -- Every job that is answered, or is about to be, has its key in the table.
  IsStored : Pool fl env rt → Type 0
  IsStored p = All (Stored (index p.system.db.jobs)) p.tasks

  asks_with-Stored : (ix : List Entry) (key : Str) (j : Job F) → Stored ix (asks_with key j)
  asks_with-Stored ix [] j = tt
  asks_with-Stored ix (c ∷ key) j = tt

  quit-Stored :
      (ix : List Entry) (b : Bool) (t : Task F) → Stored ix t → Stored ix (quit fl env rt b t)
  quit-Stored ix true waits h = tt
  quit-Stored ix true t h = h
  quit-Stored ix false t h = h

  turn_at-IsStored :
      (i now : ℕ) (found : Option (Task F)) (p : Pool fl env rt)
      → get_elem? p.tasks i ≡ found
      → IsStored p
      → IsStored (turn_at fl env rt i now found p)
  unfolding IsStored
  turn_at-IsStored i now none p at a = a
  turn_at-IsStored i now (some t) p at a =
      All-set (Stored (index (turn_among fl env rt p.tasks now t p.system).1.db.jobs)) p.tasks i
        (turn_among fl env rt p.tasks now t p.system).0
        (All-Stored fl env rt (turn_among-Moves fl env rt p.tasks now t p.system).rows p.tasks a)
        (turn-Stored fl env rt p.tasks now t p.system
          (All-at (Stored (index p.system.db.jobs)) p.tasks i t a at))

  quit_at-IsStored :
      (i : ℕ) (found : Option (Task F)) (p : Pool fl env rt)
      → get_elem? p.tasks i ≡ found
      → IsStored p
      → IsStored (quit_at fl env rt i found p)
  unfolding IsStored
  quit_at-IsStored i none p at a = a
  quit_at-IsStored i (some t) p at a =
      All-set (Stored (index p.system.db.jobs)) p.tasks i (quit fl env rt p.system.stopped t) a (
        quit-Stored (index p.system.db.jobs) p.system.stopped t
          (All-at (Stored (index p.system.db.jobs)) p.tasks i t a at))

  happens-IsStored :
      (e : Event fl env rt) (p : Pool fl env rt) → IsStored p → IsStored (happens fl env rt e p)
  unfolding happens IsStored
  happens-IsStored (arrives id now req key) p a =
      All-append (Stored (index p.system.db.jobs)) p.tasks
        (asks_with key (new_job fl env id now req key) ∷ []) a
        (asks_with-Stored (index p.system.db.jobs) key (new_job fl env id now req key), tt)
  happens-IsStored calls_stop p a =
      All-append (Stored (index p.system.db.jobs)) p.tasks (stops ∷ []) a (tt, tt)
  happens-IsStored (turns i now) p a = turn_at-IsStored i now (get_elem? p.tasks i) p refl a
  happens-IsStored (quits i) p a = quit_at-IsStored i (get_elem? p.tasks i) p refl a

  play-IsStored :
      (es : List (Event fl env rt)) (p : Pool fl env rt)
      → IsStored p
      → IsStored (play fl env rt es p)
  unfolding play
  play-IsStored [] p a = a
  play-IsStored (e ∷ es) p a = play-IsStored es (happens fl env rt e p) (happens-IsStored e p a)

  same_job :
      (a b : Job F) (c : ℕ) (key : Str) (ix : List Entry)
      → IsUnique ix
      → Held a ix
      → Held b ix
      → a.idempotency_key ≡ c ∷ key
      → b.idempotency_key ≡ c ∷ key
      → a.id ≡ b.id
  same_job a b c key ix u (inl none_of) h e f = let no : c ∷ key ≡ [] = sym e ∙ none_of in cc no
  same_job a b c key ix u (inr g) (inl none_of) e f =
      let no : c ∷ key ≡ [] = sym f ∙ none_of in cc no
  same_job a b c key ix u (inr g) (inr h) e f =
      one_key (c ∷ key) a.id b.id ix u (subst (λ k. HasEntry (a.id, some k) ix) e g)
        (subst (λ k. HasEntry (b.id, some k) ix) f h)

  play-append :
      (es fs : List (Event fl env rt)) (p : Pool fl env rt)
      → play fl env rt (es ++ fs) p ≡ play fl env rt fs (play fl env rt es p)
  unfolding play
  play-append [] fs p = refl
  play-append (e ∷ es) fs p = play-append es fs (happens fl env rt e p)

  answered_key :
      (key : Str) (i : ℕ) (a : Job F) (ts : List (Task F))
      → AsksAt fl env rt key i ts
      → get_elem? ts i ≡ some (answered (ok a))
      → a.idempotency_key ≡ key
  answered_key key i a ts h e =
      let same : h.task ≡ answered (ok a) = cc (h.at, e) in
      let asks = h.asks in subst (Asks key) same asks

  -- A request's goroutine, when it has come and after all that happens then.
  arrives-AsksAt :
      (id : Str) (now : ℕ) (req : ProfileRequest F) (key : Str) (es : List (Event fl env rt))
      (p : Pool fl env rt)
      → AsksAt fl env rt key (length p.tasks) (play fl env rt (arrives id now req key ∷ es) p).tasks
  unfolding play happens
  arrives-AsksAt id now req key es p =
      play-AsksAt fl env rt key (length p.tasks) es (happens fl env rt (arrives id now req key) p)
        (arrived-AsksAt fl env rt p.tasks key (new_job fl env id now req key) refl)

  -- From a table whose rows have different ids and keys, once Start has returned: if two requests with one key that is
  -- not empty come, the second one at any time after the first, and both are answered with a job, it is one job,
  -- whatever else comes, whichever statements fail and however the statements of all goroutines are interleaved.
  pub play-one_job :
      (d : Db) (n stale_after : ℤ) (now : ℕ) (es es' es'' : List (Event fl env rt)) (id id' : Str)
      (now' now'' : ℕ) (req req' : ProfileRequest F) (c : ℕ) (key : Str)
      (first second last : Pool fl env rt) (a b : Job F)
      → IsUnique (index d.jobs)
      → first ≡ play fl env rt es (fresh_pool fl env rt d n stale_after now)
      → second ≡ play fl env rt (arrives id now' req (c ∷ key) ∷ es') first
      → last ≡ play fl env rt (arrives id' now'' req' (c ∷ key) ∷ es'') second
      → get_elem? last.tasks (length first.tasks) ≡ some (answered (ok a))
      → get_elem? last.tasks (length second.tasks) ≡ some (answered (ok b))
      → a.id ≡ b.id
  unfolding IsStored
  play-one_job d n stale_after now es es' es'' id id' now' now'' req req' c key first second last a
        b u e1 e2 e3 at_a at_b =
      let begun = start fl env now (new_manager d n stale_after) in
      let begin = fresh_pool fl env rt d n stale_after now in
      let fs : List (Event fl env rt) = arrives id now' req (c ∷ key) ∷ es' in
      let gs : List (Event fl env rt) = arrives id' now'' req' (c ∷ key) ∷ es'' in
      let to_second : second ≡ play fl env rt (es ++ fs) begin =
        e2 ∙ ap (play fl env rt fs) e1 ∙ sym (play-append es fs begin) in
      let to_last : last ≡ play fl env rt ((es ++ fs) ++ gs) begin =
        e3 ∙ ap (play fl env rt gs) to_second ∙ sym (play-append (es ++ fs) gs begin) in
      let unique =
        subst (λ p. IsUnique (index p.system.db.jobs)) (sym to_last)
          (play-exclusive fl env rt d n stale_after now ((es ++ fs) ++ gs) a.id u).1.unique in
      let stored = subst IsStored (sym to_last) (
        play-IsStored ((es ++ fs) ++ gs) begin
          (All-replicate (Stored (index begun.db.jobs)) begun.workers waits tt)) in
      let asked_a : AsksAt fl env rt (c ∷ key) (length first.tasks) last.tasks =
        subst (λ p. AsksAt fl env rt (c ∷ key) (length first.tasks) p.tasks) (sym e3)
          (play-AsksAt fl env rt (c ∷ key) (length first.tasks) gs second (
            subst (λ p. AsksAt fl env rt (c ∷ key) (length first.tasks) p.tasks) (sym e2)
              (arrives-AsksAt id now' req (c ∷ key) es' first))) in
      let asked_b : AsksAt fl env rt (c ∷ key) (length second.tasks) last.tasks =
        subst (λ p. AsksAt fl env rt (c ∷ key) (length second.tasks) p.tasks) (sym e3)
          (arrives-AsksAt id' now'' req' (c ∷ key) es'' second) in
      same_job a b c key (index last.system.db.jobs) unique
        (All-at (Stored (index last.system.db.jobs)) last.tasks (length first.tasks)
          (answered (ok a)) stored at_a)
        (All-at (Stored (index last.system.db.jobs)) last.tasks (length second.tasks)
          (answered (ok b)) stored at_b)
        (answered_key (c ∷ key) (length first.tasks) a last.tasks asked_a at_a)
        (answered_key (c ∷ key) (length second.tasks) b last.tasks asked_b at_b)
