-- ===== src/Worker/Valid/Create.antt =====
-- The invariant of the process and `Create`.
use data_profiler.Prelude.{ℕ, ◌≡◌, refl, Bool, true, false, [], ◌∷◌, Str, Bool-cases, inl, inr}
use data_profiler.Prelude.Float.{Float64}
use data_profiler.Domain.{ProfileRequest, Job}
use data_profiler.Store.{Result, ok, err, Env, create_job, update_job, get_job_by_idempotency_key}
use data_profiler.Store.Keeps.{
  HasRow, create_job-Keeps, create_job-HasRow, update_job-Keeps, get_job_by_idempotency_key-Keeps,
}
use data_profiler.Worker.Transfers.{on_db-KeepsQueue}
use data_profiler.Worker.{
  System, branch, on_db, enqueue, finish_create, lost_race, insert_and_enqueue, create, new_job,
}
use data_profiler.Worker.Valid.{IsValid, IsValid-flags, KeepsQueue-IsValid, enqueue-IsValid}

module _ (fl : Float64) (env : Env fl.F) where
  open fl use {F}

  branch-IsValid :
      {A B : Type 0} (r : Result A × System) (f : Str → System → B × System)
      (g : A → System → B × System)
      → ((e : Str) → IsValid r.1 → IsValid (f e r.1).1)
      → ((a : A) → r.0 ≡ ok a → IsValid r.1 → IsValid (g a r.1).1)
      → IsValid r.1
      → IsValid (branch r f g).1
  branch-IsValid (err e, s) f g hf hg v = hf e v
  branch-IsValid (ok a, s) f g hf hg v = hg a refl v

  finish_create-IsValid :
      (j : Job F) (later : ℕ) (r : Bool × System)
      → IsValid r.1
      → IsValid (finish_create fl env j later r).1
  finish_create-IsValid j later (true, s) v = v
  finish_create-IsValid j later (false, s) v =
      branch-IsValid (on_db fl env (update_job env _) s) _ _ (λ e w. w) (λ a same w. w)
        (KeepsQueue-IsValid
          (on_db-KeepsQueue fl env (update_job env _) s (update_job-Keeps env _ s.db)) v)

  lost_race-IsValid : (key e : Str) (s : System) → IsValid s → IsValid (lost_race fl env key e s).1
  lost_race-IsValid [] e s v = v
  lost_race-IsValid (c ∷ key) e s v =
      branch-IsValid (on_db fl env (get_job_by_idempotency_key env (c ∷ key)) s) _ _ (λ m w. w)
        (λ a same w. w)
        (KeepsQueue-IsValid
          (on_db-KeepsQueue fl env (get_job_by_idempotency_key env (c ∷ key)) s
            (get_job_by_idempotency_key-Keeps env (c ∷ key) s.db))
          v)

  inserted :
      (j : Job F) (later : ℕ) (r : Result (Unit {0}) × System)
      → HasRow env j.id (r.0, r.1.db)
      → IsValid r.1
      → IsValid
          (branch r
            (λ e s'. lost_race fl env j.idempotency_key e s')
            (λ _ s'. finish_create fl env j later (enqueue j.id s'))).1
  inserted j later (err e, s) has v = lost_race-IsValid j.idempotency_key e s v
  inserted j later (ok u, s) has v =
      finish_create-IsValid j later (enqueue j.id s) (enqueue-IsValid j.id s has v)

  insert_and_enqueue-IsValid :
      (j : Job F) (later : ℕ) (s : System)
      → IsValid s
      → IsValid (insert_and_enqueue fl env j later s).1
  unfolding insert_and_enqueue
  insert_and_enqueue-IsValid j later s v = elim (Bool-cases s.stopped) [
    | inl e ↦ rw e (IsValid-flags s.started true v)
    | inr e ↦ rw e (
        inserted j later (on_db fl env (create_job env j) (record s { stopped = false }))
          (create_job-HasRow env j s.db)
          (KeepsQueue-IsValid
            (on_db-KeepsQueue fl env (create_job env j) (record s { stopped = false })
              (create_job-Keeps env j s.db))
            (IsValid-flags s.started false v)))
  ]

  pub create-IsValid :
      (id : Str) (now later : ℕ) (req : ProfileRequest F) (key : Str) (s : System)
      → IsValid s
      → IsValid (create fl env id now later req key s).1
  unfolding create
  create-IsValid id now later req [] s v =
      insert_and_enqueue-IsValid (new_job fl env id now req []) later s v
  create-IsValid id now later req (c ∷ key) s v =
      branch-IsValid (on_db fl env (get_job_by_idempotency_key env (c ∷ key)) s) _ _
        (λ e w. insert_and_enqueue-IsValid (new_job fl env id now req (c ∷ key)) later _ w)
        (λ a same w. w)
        (KeepsQueue-IsValid
          (on_db-KeepsQueue fl env (get_job_by_idempotency_key env (c ∷ key)) s
            (get_job_by_idempotency_key-Keeps env (c ∷ key) s.db))
          v)
