-- ===== src/Api/Accepted.antt =====
-- The job that POST /profile-jobs answers with.
use data_profiler.Prelude.{
  ℕ, ◌≡◌, refl, ap, Bool, true, false, Option, none, some, List, [], ◌∷◌, Str, lit, trim_space,
  Bool-cases, Option-cases, ◌⊎◌, inl, inr,
}
use data_profiler.Prelude.Float.{Float64}
use data_profiler.Domain.{ProfileRequest, Job}
use data_profiler.Store.Tables.{JobRow, find_key, key_is}
use data_profiler.Store.Index.{index, HasId}
use data_profiler.Store.Keeps.{HasRow, call-holds, create_job-HasRow}
use data_profiler.Store.{
  Result, ok, err, Env, Db, create_job, update_job, get_job_by_idempotency_key, scan_found,
  scan_job,
}
use data_profiler.Worker.Valid.{enqueue-db}
use data_profiler.Worker.{
  System, branch, on_db, enqueue, finish_create, lost_race, insert_and_enqueue, create, new_job,
}
use data_profiler.Api.{Response, text, job, sanitize_job, is_incomplete, answer, post_job}

find_key-HasId :
    (key : Str) (rows : List JobRow) (r : JobRow)
    → find_key key rows ≡ some r
    → HasId r.id (index rows)
unfolding find_key
find_key-HasId key [] r h = cc h
find_key-HasId key (q ∷ rows) r h = elim (Bool-cases (key_is key q.idempotency_key)) [
  | inl e ↦ let same = rw e at h in inl (ap (λ o. elim o [ none ↦ q.id | some x ↦ x.id ]) same)
  | inr e ↦ inr (find_key-HasId key rows r (rw e at h))
]

module _ (fl : Float64) (env : Env fl.F) where
  open fl use {F}

  -- A job that is returned has a row.
  abbrev pub Known : Result (Job F) × Db → Type 0
  Known (ok j, d) = HasId j.id (index d.jobs)
  Known (err e, d) = Unit

  abbrev pub Returns : Result (Job F) × System → Type 0
  Returns (r, s) = Known (r, s.db)

  by_key-Known : (key : Str) (d : Db) → Known (get_job_by_idempotency_key env key d)
  unfolding get_job_by_idempotency_key
  by_key-Known key d =
      call-holds env Known (λ db. (scan_found env key (find_key key db.jobs), db)) d (λ e. tt)
        (elim (Option-cases (find_key key d.jobs)) [
          | inl e ↦ rw e tt
          | inr (r, e) ↦ rw e (elim (Option-cases (env.request_codec.unmarshal r.request)) [
            | inl n ↦ rw (scan_found, scan_job, n) tt
            | inr (request, p) ↦ rw (scan_found, scan_job, p) (find_key-HasId key d.jobs r e)
          ])
        ])

  all_failed :
      (r : Result (Unit {0}) × System) (m : Str)
      → Returns (branch r (λ e s'. (err e, s')) (λ _ s'. (err m, s')))
  all_failed (err e, s) m = tt
  all_failed (ok u, s) m = tt

  finish_create-Returns :
      (j : Job F) (later : ℕ) (r : Bool × System)
      → HasId j.id (index r.1.db.jobs)
      → Returns (finish_create fl env j later r)
  finish_create-Returns j later (true, s) h = h
  finish_create-Returns j later (false, s) h = all_failed (on_db fl env (update_job env _) s) _

  found_later :
      (r : Result (Job F) × System) (m : Str)
      → Returns r
      → Returns (branch r (λ _ s'. (err m, s')) (λ existing s'. (ok existing, s')))
  found_later (err e, s) m h = tt
  found_later (ok j, s) m h = h

  lost_race-Returns : (key e : Str) (s : System) → Returns (lost_race fl env key e s)
  lost_race-Returns [] e s = tt
  lost_race-Returns (c ∷ key) e s =
      found_later (on_db fl env (get_job_by_idempotency_key env (c ∷ key)) s) e
        (by_key-Known (c ∷ key) s.db)

  inserted-Returns :
      (j : Job F) (later : ℕ) (r : Result (Unit {0}) × System)
      → HasRow env j.id (r.0, r.1.db)
      → Returns (
          branch r
            (λ e s'. lost_race fl env j.idempotency_key e s')
            (λ _ s'. finish_create fl env j later (enqueue j.id s')))
  inserted-Returns j later (err e, s) h = lost_race-Returns j.idempotency_key e s
  inserted-Returns j later (ok u, s) h =
      finish_create-Returns j later (enqueue j.id s) (rw (enqueue-db j.id s) h)

  insert_and_enqueue-Returns :
      (j : Job F) (later : ℕ) (s : System) → Returns (insert_and_enqueue fl env j later s)
  unfolding insert_and_enqueue
  insert_and_enqueue-Returns j later s = elim (Bool-cases s.stopped) [
    | inl e ↦ rw e tt
    | inr e ↦ rw e (
        inserted-Returns j later (on_db fl env (create_job env j) (record s { stopped = false }))
          (create_job-HasRow env j s.db))
  ]

  created :
      (r : Result (Job F) × System) (f : System → Result (Job F) × System)
      → Returns r
      → ((s : System) → Returns (f s))
      → Returns (branch r (λ _ s'. f s') (λ existing s'. (ok existing, s')))
  created (err e, s) f h k = k s
  created (ok j, s) f h k = h

  create-Returns :
      (id : Str) (now later : ℕ) (req : ProfileRequest F) (key : Str) (s : System)
      → Returns (create fl env id now later req key s)
  unfolding create
  create-Returns id now later req [] s =
      insert_and_enqueue-Returns (new_job fl env id now req []) later s
  create-Returns id now later req (c ∷ key) s =
      created (on_db fl env (get_job_by_idempotency_key env (c ∷ key)) s)
        (insert_and_enqueue fl env (new_job fl env id now req (c ∷ key)) later)
        (by_key-Known (c ∷ key) s.db)
        (insert_and_enqueue-Returns (new_job fl env id now req (c ∷ key)) later)

  -- An answer that is an error, or an accepted job that has a row and a blanked DSN.
  abbrev pub IsSound : Response F × System → Type 0
  IsSound ((status, text m), s) = (status ≡ 400) ⊎ (status ≡ 500)
  IsSound ((status, job j), s) =
      (status ≡ 202) × HasId j.id (index s.db.jobs) × (j.request.source.dsn ≡ lit "[REDACTED]")
  IsSound ((status, _), s) = ⊥

  answered :
      (r : Result (Job F) × System)
      → Returns r
      → IsSound (answer fl env (λ e. (500, text e)) (λ j. (202, job (sanitize_job j))) r)
  unfolding sanitize_job
  answered (err e, s) h = inr refl
  answered (ok j, s) h = (refl, h, refl)

  -- Whatever fails, POST /profile-jobs answers 400 or 500 with a text, or 202 with a job whose id has a row in the
  -- table of jobs and whose DSN is blanked out.
  pub post_job-IsSound :
      (id : Str) (now later : ℕ) (body : Option (ProfileRequest F)) (key : Str) (s : System)
      → IsSound (post_job fl env id now later body key s)
  unfolding post_job
  post_job-IsSound id now later none key s = inl refl
  post_job-IsSound id now later (some r) key s = elim (Bool-cases (is_incomplete fl env r)) [
    | inl e ↦ rw e (inl refl)
    | inr e ↦ rw e (
        answered (create fl env id now later r (trim_space key) s)
          (create-Returns id now later r (trim_space key) s))
  ]
