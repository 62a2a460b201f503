-- ===== src/Worker/Tasks/Lossless.antt =====
-- Under every schedule of the goroutines, a job that waits is in the channel or in hands, if no call of the store fails.
use data_profiler.Prelude.{
  ℕ, zero, suc, ◌+◌, ◌≤◌, ◌≡◌, ◌⊎◌, refl, sym, subst, inl, inr, Bool, true, false, Option, none,
  some, List, [], ◌∷◌, ◌++◌, map, Str, str_eq, str_eq_iff, length, get_elem?, set, arith,
}
use data_profiler.Prelude.Int.{ℤ}
use data_profiler.Prelude.Float.{Float64}
use data_profiler.Store.Tables.{find_job, queued_rows, recover_row}
use data_profiler.Store.{Env, Db}
use data_profiler.Store.Calls.{NoFault}
use data_profiler.Worker.Shutdown.{AllReadable, is_waiting}
use data_profiler.Worker.Waiting.{In, ids_of, interval_of, In-queued_rows, take-all}
use data_profiler.Worker.Restart.{recover-AllReadable, start-queue, start-rows}
use data_profiler.Worker.{System, Runtime, new_job, new_manager, start}
use data_profiler.Worker.Tasks.{
  Task, waits, gone, stops, Pool, Event, arrives, calls_stop, turns, quits, asks_with, put_back,
  turn_among, turn_at, quit, quit_at, happens, play, launch,
}
use data_profiler.Worker.Tasks.Moves.{occurs}
use data_profiler.Worker.Tasks.Kept.Steps.{minds, Tends, same_rows}
use data_profiler.Worker.Tasks.Kept.{ReadsBack, turn-Tends}
use data_profiler.Worker.Tasks.Owners.{fresh_pool}

module _ {F : Type 0} where
  -- How many goroutines mind an id.
  abbrev pub minded : Str → List (Task F) → ℕ
  minded id [] = 0
  minded id (t ∷ ts) = occurs id (minds t) + minded id ts

  minded-append :
      (id : Str) (ts us : List (Task F)) → minded id (ts ++ us) ≡ minded id ts + minded id us
  minded-append id [] us = omega arith
  minded-append id (t ∷ ts) us = omega (arith, minded-append id ts us)

  minded-set :
      (id : Str) (ts : List (Task F)) (i : ℕ) (t t' : Task F)
      → get_elem? ts i ≡ some t
      → minded id (set ts i t') + occurs id (minds t) ≡ minded id ts + occurs id (minds t')
  minded-set id [] i t t' e = cc e
  minded-set id (u ∷ ts) zero t t' e = let same : u ≡ t = cc e in rw same (omega arith)
  minded-set id (u ∷ ts) (suc i) t t' e = omega (arith, minded-set id ts i t t' e)

  minded-in :
      (id : Str) (ts : List (Task F)) (i : ℕ) (t : Task F)
      → get_elem? ts i ≡ some t
      → occurs id (minds t) ≤ minded id ts
  minded-in id [] i t e = cc e
  minded-in id (u ∷ ts) zero t e = let same : u ≡ t = cc e in rw same (omega arith)
  minded-in id (u ∷ ts) (suc i) t e = omega (arith, minded-in id ts i t e)

In-occurs : (id : Str) (l : List Str) → In id l → 1 ≤ occurs id l
In-occurs id [] h = absurd h
In-occurs id (x ∷ l) (inl e) =
    let same : str_eq x id ≡ true = (str_eq_iff x id).1 e in rw same (omega arith)
In-occurs id (x ∷ l) (inr h) = omega (arith, In-occurs id l h)

module _ (fl : Float64) (env : Env fl.F) (rt : Runtime fl) where
  open fl use {F}

  -- In how many places an id is, in the channel or with a goroutine.
  abbrev pub carried : Str → Pool fl env rt → ℕ
  carried id p = occurs id p.system.queue + minded id p.tasks

  record IsLossless (p : Pool fl env rt) : Type 0 where
    readable : AllReadable fl env p.system.db.jobs
    waiting : (id : Str) → is_waiting (find_job id p.system.db.jobs) ≡ true → 1 ≤ carried id p

  put_back-IsLossless :
      (i : ℕ) (t : Task F) (r : Task F × System) (p : Pool fl env rt)
      → get_elem? p.tasks i ≡ some t
      → Tends fl env t p.system r
      → IsLossless p
      → IsLossless (put_back fl env rt i p.tasks r)
  put_back-IsLossless i t (t', s) p at m v = record {
    readable = m.readable v.readable;
    waiting = λ id h. go id (m.waiting id h);
  }
    where
      go :
          (id : Str)
          → (1 ≤ occurs id s.queue + occurs id (minds t'))
            ⊎ ((is_waiting (find_job id p.system.db.jobs) ≡ true)
                × (occurs id p.system.queue + occurs id (minds t)
                    ≤ occurs id s.queue + occurs id (minds t')))
          → 1 ≤ occurs id s.queue + minded id (set p.tasks i t')
      go id (inl there) =
          omega (arith, there, minded-set id p.tasks i t t' at, minded-in id p.tasks i t at)
      go id (inr (before, more)) =
          omega (arith, v.waiting id before, more, minded-set id p.tasks i t t' at)

  joins_pool :
      (t : Task F) (p : Pool fl env rt)
      → IsLossless p
      → IsLossless (record p { tasks = p.tasks ++ t ∷ [] })
  joins_pool t p v = record {
    readable = v.readable;
    waiting = λ id h. omega (arith, v.waiting id h, minded-append id p.tasks (t ∷ []));
  }

  quit-Tends : (b : Bool) (t : Task F) (s : System) → Tends fl env t s (quit fl env rt b t, s)
  quit-Tends true waits s = same_rows fl env waits gone s s refl (λ x. omega arith)
  quit-Tends true t s = same_rows fl env t t s s refl (λ x. omega arith)
  quit-Tends false t s = same_rows fl env t t s s refl (λ x. omega arith)

  module _ (fine : NoFault env) (trips : ReadsBack fl env) where
    turn_at-IsLossless :
        (i now : ℕ) (found : Option (Task F)) (p : Pool fl env rt)
        → get_elem? p.tasks i ≡ found
        → IsLossless p
        → IsLossless (turn_at fl env rt i now found p)
    turn_at-IsLossless i now none p at v = v
    turn_at-IsLossless i now (some t) p at v =
        put_back-IsLossless i t (turn_among fl env rt p.tasks now t p.system) p at
          (turn-Tends fl env rt fine trips p.tasks now t p.system v.readable) v

    quit_at-IsLossless :
        (i : ℕ) (found : Option (Task F)) (p : Pool fl env rt)
        → get_elem? p.tasks i ≡ found
        → IsLossless p
        → IsLossless (quit_at fl env rt i found p)
    quit_at-IsLossless i none p at v = v
    quit_at-IsLossless i (some t) p at v =
        put_back-IsLossless i t (quit fl env rt p.system.stopped t, p.system) p at
          (quit-Tends p.system.stopped t p.system) v

    happens-IsLossless :
        (e : Event fl env rt) (p : Pool fl env rt)
        → IsLossless p
        → IsLossless (happens fl env rt e p)
    unfolding happens
    happens-IsLossless (arrives id now req key) p v =
        joins_pool (asks_with key (new_job fl env id now req key)) p v
    happens-IsLossless calls_stop p v = joins_pool stops p v
    happens-IsLossless (turns i now) p v = turn_at-IsLossless i now (get_elem? p.tasks i) p refl v
    happens-IsLossless (quits i) p v = quit_at-IsLossless i (get_elem? p.tasks i) p refl v

    play-IsLossless :
        (es : List (Event fl env rt)) (p : Pool fl env rt)
        → IsLossless p
        → IsLossless (play fl env rt es p)
    unfolding play
    play-IsLossless [] p v = v
    play-IsLossless (e ∷ es) p v =
        play-IsLossless es (happens fl env rt e p) (happens-IsLossless e p v)

    launch-IsLossless :
        (now : ℕ) (s : System)
        → s.started ≡ false
        → s.queue ≡ []
        → AllReadable fl env s.db.jobs
        → length (queued_rows (map (recover_row now (interval_of s.stale_after)) s.db.jobs)) ≤ 1000
        → IsLossless (launch fl env rt (start fl env now s))
    launch-IsLossless now s fresh empty a few =
        let jobs = map (recover_row now (interval_of s.stale_after)) s.db.jobs in
        let rows = start-rows fl env now s fine fresh a in
        let queue = start-queue fl env now s fine fresh empty a in
        record {
          readable =
              rw rows (recover-AllReadable fl env now (interval_of s.stale_after) s.db.jobs a);
          waiting = λ id h.
              let listed = In-queued_rows id jobs (rw rows at h) in
              let sent =
                subst (λ l. In id (ids_of l)) (sym (take-all 1000 (queued_rows jobs) few)) listed in
              let there : 1 ≤ occurs id (start fl env now s).queue =
                rw queue (In-occurs id _ sent) in
              omega (arith, there);
        }

    -- If no statement fails, the rows can be read and those of new requests can be read back, and Start finds no more
    -- than 1000 jobs that wait or are stale, then no job is lost: whatever requests come, whenever Stop is called and
    -- however the statements of all goroutines are interleaved, a job that waits in the table is in the channel, or a
    -- worker has taken it, or its request is about to send it or to mark it failed, or Stop to cancel it.
    pub play-carries :
        (d : Db) (n stale_after : ℤ) (now : ℕ) (es : List (Event fl env rt)) (id : Str)
        → AllReadable fl env d.jobs
        → length (
            queued_rows (
              map (recover_row now (interval_of (new_manager d n stale_after).stale_after)) d.jobs))
          ≤ 1000
        → is_waiting (
            find_job id
              (play fl env rt es (fresh_pool fl env rt d n stale_after now)).system.db.jobs)
          ≡ true
        → 1 ≤ carried id (play fl env rt es (fresh_pool fl env rt d n stale_after now))
    unfolding new_manager
    play-carries d n stale_after now es id a few waits_there =
        (play-IsLossless es (fresh_pool fl env rt d n stale_after now)
            (launch-IsLossless now (new_manager d n stale_after) refl refl a few)).waiting
          id waits_there
