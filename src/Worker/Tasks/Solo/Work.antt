-- ===== src/Worker/Tasks/Solo/Work.antt =====
-- A worker that nothing interrupts does what `run` does.
use data_profiler.Prelude.{ℕ, suc, ◌≡◌, none, some, [], Str}
use data_profiler.Prelude.Float.{Float64}
use data_profiler.Domain.{running, Job, TableProfile}
use data_profiler.Store.{Result, ok, err, Env, update_job, get_job}
use data_profiler.Worker.{
  System, Runtime, branch, on_db, run, profile_and_save, save_profiled, settle,
}
use data_profiler.Worker.Tasks.{Task, waits, loads, begins, profiles, settles, next, turn, profiled}
use data_profiler.Worker.Tasks.Solo.{alone, clock_of, alone-waits}

module _ (fl : Float64) (env : Env fl.F) (rt : Runtime fl) where
  open fl use {F}

  module _ (began judged finished : ℕ) where
    abbrev times : Task F → ℕ
    times = clock_of fl env rt began judged finished

    settles-alone :
        (n : ℕ) (j : Job F) (r : Result (Unit {0})) (s : System)
        → alone fl env rt times (suc n) (settles j r) s
          ≡ (waits, settle fl env rt j finished (r, s))
    unfolding alone turn
    settles-alone n j r s = alone-waits fl env rt times n (settle fl env rt j finished (r, s))

    profiles-alone :
        (n : ℕ) (j : Job F) (s : System)
        → alone fl env rt times (suc (suc (suc (suc n)))) (profiles j) s
          ≡ (waits, settle fl env rt j finished (profile_and_save fl env rt j judged s))
    unfolding alone turn profile_and_save save_profiled
    profiles-alone n j s = go (rt.profile_source j.request)
      where
        go :
            (r : Result (TableProfile F))
            → alone fl env rt times (suc (suc (suc n))) (profiled fl env rt j judged r) s
              ≡ (waits, settle fl env rt j finished (save_profiled fl env rt j judged r s))
        go (err e) = settles-alone (suc (suc n)) j (err e) s
        go (ok p) = settles-alone n j _ _

    pub run-alone :
        (id : Str) (s : System)
        → alone fl env rt times 6 (loads id) s ≡ (waits, run fl env rt began judged finished id s)
    unfolding alone turn run
    run-alone id s = loaded (on_db fl env (get_job env id) s)
      where
        claimed : Job F → Job F
        claimed j = record j {
          status = running;
          error = [];
          started_at = some began;
          finished_at = none;
        }

        begun : Job F → Result (Unit {0}) × System → Task F × System
        begun j r = next r (λ _. waits) (λ _. profiles j)

        marked :
            (j : Job F) (r : Result (Unit {0}) × System)
            → alone fl env rt times 4 (begun j r).0 (begun j r).1 ≡ (
              waits,
              branch r
                  (λ _ s2. s2)
                  (λ _ s2. settle fl env rt j finished (profile_and_save fl env rt j judged s2)),
            )
        marked j (err e, s2) = alone-waits fl env rt times 4 s2
        marked j (ok u, s2) = profiles-alone 0 j s2

        found : Result (Job F) × System → Task F × System
        found r = next r (λ _. waits) (λ j. begins (claimed j))

        loaded :
            (r : Result (Job F) × System)
            → alone fl env rt times 5 (found r).0 (found r).1 ≡ (
              waits,
              branch r
                  (λ _ s1. s1)
                  (λ j s1.
                    branch
                      (on_db fl env (update_job env (claimed j)) s1)
                      (λ _ s2. s2)
                      (λ _ s2.
                        settle fl env rt
                          (claimed j)
                          finished
                          (profile_and_save fl env rt (claimed j) judged s2))),
            )
        loaded (err e, s1) = alone-waits fl env rt times 5 s1
        loaded (ok j, s1) = marked (claimed j) (on_db fl env (update_job env (claimed j)) s1)
