-- ===== src/Worker/Tasks/Answers/Turns.antt =====
-- Each statement of a request takes it nearer to its answer.
use data_profiler.Prelude.{
  ℕ, ◌+◌, ◌-◌, ◌≤◌, ◌≡◌, refl, true, some, List, [], ◌∷◌, Str, length, ltb, Bool-cases, inl, inr,
  arith,
}
use data_profiler.Prelude.Float.{Float64}
use data_profiler.Domain.{failed, Job}
use data_profiler.Store.{Result, ok, err, Env, create_job, update_job, get_job_by_idempotency_key}
use data_profiler.Worker.{System, Runtime, capacity, on_db, queue_full}
use data_profiler.Worker.Tasks.{
  Task, looks_up, checks, inserts, looks_again, announces, sends, withdraws, answered, next,
  refused, turn, turn_among,
}
use data_profiler.Worker.Tasks.Answers.{remaining, is_request}

-- A statement of a request, or its answer.
pub record Nears {F : Type 0} (t t' : Task F) : Type 0 where
  pub request : is_request t' ≡ true
  pub fewer : remaining t' + 1 ≤ remaining t + (1 - remaining t)

module _ {F : Type 0} where
  nears :
      (t t' : Task F)
      → is_request t' ≡ true
      → remaining t' + 1 ≤ remaining t + (1 - remaining t)
      → Nears t t'
  nears t t' r f = record { request = r; fewer = f }

  next-Nears :
      {A : Type 0} (t : Task F) (r : Result A × System) (f : Str → Task F) (g : A → Task F)
      → ((e : Str) → Nears t (f e))
      → ((a : A) → Nears t (g a))
      → Nears t (next r f g).0
  next-Nears t (err e, s) f g hf hg = hf e
  next-Nears t (ok a, s) f g hf hg = hg a

module _ (fl : Float64) (env : Env fl.F) (rt : Runtime fl) where
  open fl use {F}

  refused-Nears : (j : Job F) (key e : Str) → Nears (inserts j) (refused key j e)
  unfolding remaining
  refused-Nears j [] e = nears (inserts j) (answered (err e)) refl (omega arith)
  refused-Nears j (c ∷ key) e = nears (inserts j) (looks_again j e) refl (omega arith)

  pub turn-Nears :
      (ts : List (Task F)) (now : ℕ) (t : Task F) (s : System)
      → is_request t ≡ true
      → Nears t (turn_among fl env rt ts now t s).0
  unfolding turn remaining
  turn-Nears ts now (looks_up j) s h =
      next-Nears (looks_up j) (on_db fl env (get_job_by_idempotency_key env j.idempotency_key) s) _
        _ (λ e. nears (looks_up j) (checks j) refl (omega arith))
        (λ a. nears (looks_up j) (answered (ok a)) refl (omega arith))
  turn-Nears ts now (checks j) s h = elim (Bool-cases s.stopped) [
    | inl e ↦ rw e (nears (checks j) (answered (err _)) refl (omega arith))
    | inr e ↦ rw e (nears (checks j) (inserts j) refl (omega arith))
  ]
  turn-Nears ts now (inserts j) s h =
      next-Nears (inserts j) (on_db fl env (create_job env j) s) _ _
        (λ e. refused-Nears j j.idempotency_key e)
        (λ a. nears (inserts j) (announces j) refl (omega arith))
  turn-Nears ts now (looks_again j m) s h =
      next-Nears (looks_again j m)
        (on_db fl env (get_job_by_idempotency_key env j.idempotency_key) s) _ _
        (λ e. nears (looks_again j m) (answered (err m)) refl (omega arith))
        (λ a. nears (looks_again j m) (answered (ok a)) refl (omega arith))
  turn-Nears ts now (announces j) s h = elim (Bool-cases s.stopped) [
    | inl e ↦ rw e (nears (announces j) (withdraws j) refl (omega arith))
    | inr e ↦ rw e (nears (announces j) (sends j) refl (omega arith))
  ]
  turn-Nears ts now (sends j) s h = elim (Bool-cases (ltb (length s.queue) capacity)) [
    | inl e ↦ rw e (nears (sends j) (answered (ok j)) refl (omega arith))
    | inr e ↦ rw e (nears (sends j) (withdraws j) refl (omega arith))
  ]
  turn-Nears ts now (withdraws j) s h =
      next-Nears (withdraws j)
        (on_db fl env
          (update_job env
            (record j { status = failed; error = queue_full; finished_at = some now }))
          s)
        _ _ (λ e. nears (withdraws j) (answered (err e)) refl (omega arith))
        (λ a. nears (withdraws j) (answered (err queue_full)) refl (omega arith))
  turn-Nears ts now (answered r) s h = nears (answered r) (answered r) refl (omega arith)
  turn-Nears ts now t s h = cc h
