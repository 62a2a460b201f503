-- ===== src/Worker/Tasks/Solo/Request.antt =====
-- A request that nothing interrupts does what `create` does.
use data_profiler.Prelude.{
  ℕ, suc, ◌≡◌, refl, subst, Bool, true, false, some, [], ◌∷◌, ◌++◌, Str, length, ltb, if◌then◌else◌,
}
use data_profiler.Prelude.Float.{Float64}
use data_profiler.Domain.{failed, ProfileRequest, Job}
use data_profiler.Store.{Result, ok, err, Env, create_job, update_job, get_job_by_idempotency_key}
use data_profiler.Worker.{
  System, Runtime, capacity, shutting_down, queue_full, branch, on_db, new_job, enqueue,
  finish_create, lost_race, insert_and_enqueue, create,
}
use data_profiler.Worker.Tasks.{
  Task, checks, inserts, looks_again, announces, sends, withdraws, answered, next, asks_with, turn,
  refused,
}
use data_profiler.Worker.Tasks.Solo.{alone, answer, alone-answered}

module _ (fl : Float64) (env : Env fl.F) (rt : Runtime fl) where
  open fl use {F}

  module _ (later : ℕ) where
    abbrev clock : Task F → ℕ
    clock t = later

    after_update : Result (Unit {0}) × System → Task F × System
    after_update r = next r (λ e. answered (err e)) (λ _. answered (err queue_full))

    withdraws-alone :
        (n : ℕ) (j : Job F) (s : System)
        → alone fl env rt clock (suc n) (withdraws j) s
          ≡ answer fl env rt (finish_create fl env j later (false, s))
    unfolding alone turn after_update
    withdraws-alone n j s = go (
        on_db fl env
          (update_job env
            (record j { status = failed; error = queue_full; finished_at = some later }))
          s)
      where
        go :
            (r : Result (Unit {0}) × System)
            → alone fl env rt clock n (after_update r).0 (after_update r).1
              ≡ answer fl env rt (branch r (λ e s'. (err e, s')) (λ _ s'. (err queue_full, s')))
        go (err e, s') = alone-answered fl env rt clock n (err e) s'
        go (ok u, s') = alone-answered fl env rt clock n (err queue_full) s'

    sent : Bool → Job F → System → Task F × System
    sent room j s =
        if room
        then (answered (ok j), record s { queue = s.queue ++ j.id ∷ [] })
        else (withdraws j, s)

    sends-alone :
        (n : ℕ) (j : Job F) (s : System) (room : Bool)
        → alone fl env rt clock (suc n) (sent room j s).0 (sent room j s).1
          ≡ answer fl env rt (
              finish_create fl env j later
                (if room then (true, record s { queue = s.queue ++ j.id ∷ [] }) else (false, s)))
    unfolding sent
    sends-alone n j s true =
        alone-answered fl env rt clock (suc n) (ok j) (record s { queue = s.queue ++ j.id ∷ [] })
    sends-alone n j s false = withdraws-alone n j s

    announces-alone :
        (n : ℕ) (j : Job F) (s : System)
        → alone fl env rt clock (suc (suc (suc n))) (announces j) s
          ≡ answer fl env rt (finish_create fl env j later (enqueue j.id s))
    unfolding alone turn enqueue sent
    announces-alone n j s = go s.stopped
      where
        go :
            (stopped : Bool)
            → alone fl env rt clock (suc (suc n)) (if stopped then withdraws j else sends j) s
              ≡ answer fl env rt (
                  finish_create fl env j later (
                    if stopped
                    then (false, s)
                    else if ltb (length s.queue) capacity
                    then (true, record s { queue = s.queue ++ j.id ∷ [] })
                    else (false, s)))
        go true = withdraws-alone (suc n) j s
        go false = sends-alone n j s (ltb (length s.queue) capacity)

    looks_again-alone :
        (n : ℕ) (j : Job F) (e : Str) (s : System)
        → alone fl env rt clock (suc n) (looks_again j e) s
          ≡ answer fl env rt (
              branch
                (on_db fl env (get_job_by_idempotency_key env j.idempotency_key) s)
                (λ _ s'. (err e, s'))
                (λ existing s'. (ok existing, s')))
    unfolding alone turn
    looks_again-alone n j e s =
        go (on_db fl env (get_job_by_idempotency_key env j.idempotency_key) s)
      where
        found : Result (Job F) × System → Task F × System
        found r = next r (λ _. answered (err e)) (λ existing. answered (ok existing))

        go :
            (r : Result (Job F) × System)
            → alone fl env rt clock n (found r).0 (found r).1
              ≡ answer fl env rt (branch r (λ _ s'. (err e, s')) (λ existing s'. (ok existing, s')))
        go (err m, s') = alone-answered fl env rt clock n (err e) s'
        go (ok a, s') = alone-answered fl env rt clock n (ok a) s'

    refused-alone :
        (n : ℕ) (j : Job F) (e key : Str) (s : System)
        → j.idempotency_key ≡ key
        → alone fl env rt clock (suc n) (refused key j e) s
          ≡ answer fl env rt (lost_race fl env key e s)
    refused-alone n j e [] s same = alone-answered fl env rt clock (suc n) (err e) s
    refused-alone n j e (c ∷ key) s same =
        subst
          (λ k.
            alone fl env rt clock (suc n) (looks_again j e) s
            ≡ answer fl env rt (
                branch (on_db fl env (get_job_by_idempotency_key env k) s) (λ _ s'. (err e, s'))
                  (λ existing s'. (ok existing, s'))))
          same (looks_again-alone n j e s)

    inserts-alone :
        (n : ℕ) (j : Job F) (s : System)
        → alone fl env rt clock (suc (suc (suc (suc n)))) (inserts j) s
          ≡ answer fl env rt (
              branch
                (on_db fl env (create_job env j) s)
                (λ e s'. lost_race fl env j.idempotency_key e s')
                (λ _ s'. finish_create fl env j later (enqueue j.id s')))
    unfolding alone turn
    inserts-alone n j s = go (on_db fl env (create_job env j) s)
      where
        made : Result (Unit {0}) × System → Task F × System
        made r = next r (λ e. refused j.idempotency_key j e) (λ _. announces j)

        go :
            (r : Result (Unit {0}) × System)
            → alone fl env rt clock (suc (suc (suc n))) (made r).0 (made r).1
              ≡ answer fl env rt (
                  branch r
                    (λ e s'. lost_race fl env j.idempotency_key e s')
                    (λ _ s'. finish_create fl env j later (enqueue j.id s')))
        go (err e, s') = refused-alone (suc (suc n)) j e j.idempotency_key s' refl
        go (ok u, s') = announces-alone n j s'

    checks-alone :
        (n : ℕ) (j : Job F) (s : System)
        → alone fl env rt clock (suc (suc (suc (suc (suc n))))) (checks j) s
          ≡ answer fl env rt (insert_and_enqueue fl env j later s)
    unfolding alone turn insert_and_enqueue
    checks-alone n j s = go s.stopped
      where
        go :
            (stopped : Bool)
            → alone fl env rt clock
                (suc (suc (suc (suc n))))
                (if stopped then answered (err shutting_down) else inserts j)
                s
              ≡ answer fl env rt (
                  if stopped
                  then (err shutting_down, s)
                  else branch
                      (on_db fl env (create_job env j) s)
                      (λ e s'. lost_race fl env j.idempotency_key e s')
                      (λ _ s'. finish_create fl env j later (enqueue j.id s')))
        go true = alone-answered fl env rt clock (suc (suc (suc (suc n)))) (err shutting_down) s
        go false = inserts-alone n j s

    pub create-alone :
        (id : Str) (now : ℕ) (req : ProfileRequest F) (key : Str) (s : System)
        → alone fl env rt clock 6 (asks_with key (new_job fl env id now req key)) s
          ≡ answer fl env rt (create fl env id now later req key s)
    unfolding alone turn create
    create-alone id now req [] s = checks-alone 1 (new_job fl env id now req []) s
    create-alone id now req (c ∷ key) s =
        go (on_db fl env (get_job_by_idempotency_key env (c ∷ key)) s)
      where
        j : Job F
        j = new_job fl env id now req (c ∷ key)

        asked : Result (Job F) × System → Task F × System
        asked r = next r (λ _. checks j) (λ existing. answered (ok existing))

        go :
            (r : Result (Job F) × System)
            → alone fl env rt clock 5 (asked r).0 (asked r).1
              ≡ answer fl env rt (
                  branch r
                    (λ _ s'. insert_and_enqueue fl env j later s')
                    (λ existing s'. (ok existing, s')))
        go (err e, s') = checks-alone 0 j s'
        go (ok a, s') = alone-answered fl env rt clock 5 (ok a) s'
