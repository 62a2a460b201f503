-- ===== src/Worker/Tasks/Solo/Stop.antt =====
-- Stop, when the workers are gone and nothing interrupts it, does what `stop` does.
use data_profiler.Prelude.{
  ℕ, zero, suc, ◌*◌, ◌≤◌, ◌≡◌, refl, sym, subst, Bool, true, false, not, ◌||◌, List, [], ◌∷◌, Str,
  length, arith, if◌then◌else◌,
}
use data_profiler.Prelude.Float.{Float64}
use data_profiler.Domain.{Status, queued, running, completed, failed, Job}
use data_profiler.Store.{Result, ok, err, Env, get_job}
use data_profiler.Worker.{
  System, Runtime, branch, on_db, fail_if_queued, fail_queued_job, drain, stop,
}
use data_profiler.Worker.Tasks.{
  Task, stops, joins, drains, cancels, ended, next, turn, drains_next, cancels_if,
}
use data_profiler.Worker.Tasks.Solo.{alone, alone-ended}

module _ (fl : Float64) (env : Env fl.F) (rt : Runtime fl) where
  open fl use {F}

  module _ (now : ℕ) where
    abbrev at_end : Task F → ℕ
    at_end t = now

    drains-alone :
        (ids : List Str) (n : ℕ) (s : System) (end : System)
        → s.queue ≡ ids
        → alone fl env rt at_end n (drains_next {F = F} ids s).0 (drains_next {F = F} ids s).1
          ≡ (ended, end)
        → alone fl env rt at_end (suc n) drains s ≡ (ended, end)
    unfolding alone turn
    drains-alone ids n s end e rest =
        subst
          (λ q.
            alone fl env rt at_end n (drains_next {F = F} q s).0 (drains_next {F = F} q s).1
            ≡ (ended, end))
          (sym e) rest

    Drained : List Str → ℕ → System → Type 0
    Drained ids n s =
        alone fl env rt at_end n (drains_next {F = F} ids s).0 (drains_next {F = F} ids s).1
        ≡ (ended, drain fl env now ids s)

    -- After an id of the channel, which took at most three statements.
    cancels-alone :
        (id : Str) (ids : List Str) (n : ℕ) (s : System)
        → ((m : ℕ) (s' : System) → n ≤ m → Drained ids m s')
        → alone fl env rt at_end (suc (suc (suc n))) (cancels id) (record s { queue = ids })
          ≡ (ended, drain fl env now ids (fail_queued_job fl env now id (record s { queue = ids })))
    unfolding Drained alone turn fail_queued_job fail_if_queued
    cancels-alone id ids n s rest =
        loaded (on_db fl env (get_job env id) (record s { queue = ids })) refl
      where
        again :
            (s' : System)
            → s'.queue ≡ ids
            → alone fl env rt at_end (suc (suc n)) drains s' ≡ (ended, drain fl env now ids s')
        again s' e =
            drains-alone ids (suc n) s' (drain fl env now ids s') e (rest (suc n) s' (omega arith))

        judged :
            (j : Job F) (status : Status) (s' : System)
            → s'.queue ≡ ids
            → alone fl env rt at_end (suc (suc n)) (cancels_if status j) s'
              ≡ (ended, drain fl env now ids (fail_if_queued fl env now j status s'))
        judged j queued s' e =
            let s'' = fail_if_queued fl env now j queued s' in
            drains-alone ids n s'' (drain fl env now ids s'') e (rest n s'' (omega arith))
        judged j running s' e = again s' e
        judged j completed s' e = again s' e
        judged j failed s' e = again s' e

        found : Result (Job F) × System → Task F × System
        found r = next r (λ _. drains) (λ j. cancels_if j.status j)

        loaded :
            (r : Result (Job F) × System)
            → r.1.queue ≡ ids
            → alone fl env rt at_end (suc (suc n)) (found r).0 (found r).1 ≡ (
              ended,
              drain fl env now ids
                  (branch r (λ _ s'. s') (λ j s'. fail_if_queued fl env now j j.status s')),
            )
        loaded (err m, s') e = again s' e
        loaded (ok j, s') e = judged j j.status s' e

    drained : (ids : List Str) (n : ℕ) (s : System) → 3 * length ids ≤ n → Drained ids n s
    unfolding Drained drain
    drained [] n s enough = alone-ended fl env rt at_end n s
    drained (id ∷ ids) zero s enough = absurd (omega (arith, enough))
    drained (id ∷ ids) (suc zero) s enough = absurd (omega (arith, enough))
    drained (id ∷ ids) (suc (suc zero)) s enough = absurd (omega (arith, enough))
    drained (id ∷ ids) (suc (suc (suc n))) s enough =
        cancels-alone id ids n s (λ m s' le. drained ids m s' (omega (arith, enough, le)))

    pub stop-alone :
        (s : System)
        → alone fl env rt at_end (suc (suc (suc (3 * length s.queue)))) stops s
          ≡ (ended, stop fl env now s)
    unfolding alone turn stop Drained
    stop-alone s = go s.started s.stopped
      where
        n : ℕ
        n = 3 * length s.queue

        halted : System
        halted = record s { stopped = true }

        called : Bool → Bool → Task F × System
        called started stopped = if not started || stopped then (ended, s) else (joins, halted)

        go :
            (started stopped : Bool)
            → alone fl env rt at_end
                (suc (suc n))
                (called started stopped).0
                (called started stopped).1
              ≡ (
                ended,
                if not started then s else if stopped then s else drain fl env now s.queue halted,
              )
        go false stopped = alone-ended fl env rt at_end (suc (suc n)) s
        go true true = alone-ended fl env rt at_end (suc (suc n)) s
        go true false =
            drains-alone s.queue n halted (drain fl env now s.queue halted) refl
              (drained s.queue n halted (omega arith))
