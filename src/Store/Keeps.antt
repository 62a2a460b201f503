-- ===== src/Store/Keeps.antt =====
-- What the methods of the store do to the ids and keys of the rows, whether a call fails or not.
use data_profiler.Prelude.{
  ℕ, suc, ◌≡◌, ◌⊎◌, ◌||◌, inl, inr, refl, ap, none, some, List, [], ◌∷◌, map, Str, All, Bool-cases,
  Option-cases, if◌then◌else◌, take,
}
use data_profiler.Prelude.Int.{ℤ, pos, pos_part, leb_ℤ}
use data_profiler.Domain.{ProfileRequest, Job, TableProfile}
use data_profiler.Store.Tables.{
  JobRow, has_job, has_key, queued_rows, find_job, find_key, rows_of_table, update_row, recover_row,
  count_stale,
}
use data_profiler.Store.Index.{
  Entry, index, AllKnown, AllKnown-selected, IsUnique, HasId, IsUnique-snoc, HasId-left, HasEntry,
  HasEntry-left, HasId-last, index-append, IsFresh-of_tests, index-update_row, index-recover,
}
use data_profiler.Store.{
  kept, Result, ok, err, Env, Db, null_string, call, insert_job, create_job, update_job, get_job,
  get_job_by_idempotency_key, list_queued_jobs, recover_stale_running_jobs, insert_profile,
  save_profile, get_previous_profile, scan_job, scan_found, collect, job_limit, scan_first,
  half_hour,
}

pub record Keeps (d d' : Db) : Type 0 where
  pub unique : IsUnique (index d.jobs) → IsUnique (index d'.jobs)
  pub ids : (id : Str) → HasId id (index d.jobs) → HasId id (index d'.jobs)
  pub entries : (e : Entry) → HasEntry e (index d.jobs) → HasEntry e (index d'.jobs)

Keeps-same : {d d' : Db} → index d'.jobs ≡ index d.jobs → Keeps d d'
Keeps-same same = record {
  unique = λ u. rw same u;
  ids = λ id h. rw same h;
  entries = λ e h. rw same h;
}

module _ {F : Type 0} (env : Env F) where
  call-Keeps :
      {A : Type 0} (op : Db → Result A × Db) (d : Db)
      → Keeps d (op (record d { calls = suc d.calls })).1
      → Keeps d (call env op d).1
  call-Keeps op d h = elim (Option-cases (env.fault d.calls)) [
    | inl e ↦ rw (call, e) h
    | inr (m, e) ↦ rw (call, e) (Keeps-same refl)
  ]

  -- A statement that only reads.
  read-Keeps : {A : Type 0} (f : Db → Result A) (d : Db) → Keeps d (call env (λ db. (f db, db)) d).1
  read-Keeps f d = call-Keeps (λ db. (f db, db)) d (Keeps-same refl)

  insert_job-Keeps : (j : Job F) (d : Db) → Keeps d (insert_job env j d).1
  unfolding insert_job
  insert_job-Keeps j d = elim (Option-cases (env.request_codec.marshal j.request)) [
    | inl e ↦ rw (insert_job, e) (Keeps-same refl)
    | inr (b, e) ↦ elim (Bool-cases (has_job j.id d.jobs)) [
      | inl h ↦ rw (insert_job, e, h) (Keeps-same refl)
      | inr h ↦ elim (Bool-cases (has_key (null_string j.idempotency_key) d.jobs)) [
        | inl k ↦ rw (insert_job, e, h, k) (Keeps-same refl)
        | inr k ↦
            rw (insert_job, e, h, k)
              record {
                unique = λ u. rw index-append (
                    IsUnique-snoc _ _
                      (IsFresh-of_tests j.id (null_string j.idempotency_key) d.jobs h k) u);
                ids = λ id i. rw index-append (HasId-left id _ _ i);
                entries = λ e i. rw index-append (HasEntry-left e _ _ i);
              }
      ]
    ]
  ]

  pub create_job-Keeps : (j : Job F) (d : Db) → Keeps d (create_job env j d).1
  unfolding create_job
  create_job-Keeps j d =
      let h = insert_job-Keeps j (record d { calls = suc d.calls }) in
      call-Keeps (insert_job env j) d
        (record { unique = h.unique; ids = h.ids; entries = h.entries })

  pub update_job-Keeps : (j : Job F) (d : Db) → Keeps d (update_job env j d).1
  unfolding update_job
  update_job-Keeps j d =
      call-Keeps
        (λ db. (
          ok tt,
          record db {
            jobs =
                update_row j.id j.status j.error (kept env j.started_at) (kept env j.finished_at)
                  db.jobs;
          },
        ))
        d
        (Keeps-same (
          index-update_row j.id j.status j.error (kept env j.started_at) (kept env j.finished_at)
            d.jobs))

  pub recover_stale_running_jobs-Keeps :
      (now : ℕ) (stale_after : ℤ) (d : Db)
      → Keeps d (recover_stale_running_jobs env now stale_after d).1
  unfolding recover_stale_running_jobs
  recover_stale_running_jobs-Keeps now stale_after d =
      let interval = pos_part (if leb_ℤ stale_after (pos 0) then half_hour else stale_after) in
      call-Keeps
        (λ db. (
          ok (count_stale now interval db.jobs),
          record db { jobs = map (recover_row now interval) db.jobs },
        ))
        d (Keeps-same (index-recover now interval d.jobs))

  pub get_job-Keeps : (id : Str) (d : Db) → Keeps d (get_job env id d).1
  unfolding get_job
  get_job-Keeps id d = read-Keeps (λ db. scan_found env [] (find_job id db.jobs)) d

  pub get_job_by_idempotency_key-Keeps :
      (key : Str) (d : Db) → Keeps d (get_job_by_idempotency_key env key d).1
  unfolding get_job_by_idempotency_key
  get_job_by_idempotency_key-Keeps key d =
      read-Keeps (λ db. scan_found env key (find_key key db.jobs)) d

  pub list_queued_jobs-Keeps : (limit : ℤ) (d : Db) → Keeps d (list_queued_jobs env limit d).1
  unfolding list_queued_jobs
  list_queued_jobs-Keeps limit d =
      read-Keeps
        (λ db. collect env (scan_job env []) (take (job_limit env limit) (queued_rows db.jobs))) d

  pub get_previous_profile-Keeps :
      (schema table : Str) (d : Db) → Keeps d (get_previous_profile env schema table d).1
  unfolding get_previous_profile
  get_previous_profile-Keeps schema table d =
      read-Keeps (λ db. scan_first env (rows_of_table schema table db.profiles)) d

  pub insert_profile-same :
      (id : Str) (p : TableProfile F) (d : Db) → (insert_profile env id p d).1.jobs ≡ d.jobs
  unfolding insert_profile
  insert_profile-same id p d = elim (Option-cases (env.profile_codec.marshal p)) [
    | inl e ↦ rw (insert_profile, e) refl
    | inr (b, e) ↦ elim (Bool-cases (has_job id d.jobs)) [
      | inl h ↦ rw (insert_profile, e, h) refl
      | inr h ↦ rw (insert_profile, e, h) refl
    ]
  ]

  pub save_profile-Keeps :
      (id : Str) (p : TableProfile F) (d : Db) → Keeps d (save_profile env id p d).1
  unfolding save_profile
  save_profile-Keeps id p d =
      call-Keeps (insert_profile env id p) d
        (Keeps-same (ap index (insert_profile-same id p (record d { calls = suc d.calls }))))

  pub call-holds :
      {A : Type 0} (P : Result A × Db → Type 0) (op : Db → Result A × Db) (d : Db)
      → ((e : Str) → P (err e, record d { calls = suc d.calls }))
      → P (op (record d { calls = suc d.calls }))
      → P (call env op d)
  call-holds P op d failed done = elim (Option-cases (env.fault d.calls)) [
    | inl e ↦ rw (call, e) done
    | inr (m, e) ↦ rw (call, e) (failed m)
  ]

  -- A job that was inserted has its row.
  abbrev pub HasRow : Str → Result (Unit {0}) × Db → Type 0
  HasRow id (ok u, d) = HasId id (index d.jobs)
  HasRow id (err e, d) = Unit

  insert_job-HasRow : (j : Job F) (d : Db) → HasRow j.id (insert_job env j d)
  unfolding insert_job
  insert_job-HasRow j d = elim (Option-cases (env.request_codec.marshal j.request)) [
    | inl e ↦ rw (insert_job, e) tt
    | inr (b, e) ↦
        elim (Bool-cases (has_job j.id d.jobs || has_key (null_string j.idempotency_key) d.jobs)) [
          | inl h ↦ rw (insert_job, e, h) tt
          | inr h ↦ rw (insert_job, e, h) (rw index-append (HasId-last j.id _ (index d.jobs)))
        ]
  ]

  pub create_job-HasRow : (j : Job F) (d : Db) → HasRow j.id (create_job env j d)
  unfolding create_job
  create_job-HasRow j d =
      call-holds (HasRow j.id) (insert_job env j) d (λ e. tt)
        (insert_job-HasRow j (record d { calls = suc d.calls }))

  -- The jobs that are listed have rows.
  abbrev pub ListsKnown : List Entry → Result (List (Job F)) → Type 0
  ListsKnown known (ok js) = All (λ j. HasId j.id known) js
  ListsKnown known (err e) = Unit

  collect-ListsKnown :
      (known : List Entry) (rows : List JobRow)
      → AllKnown known rows
      → ListsKnown known (collect env (scan_job env []) rows)
  collect-ListsKnown known [] a = tt
  collect-ListsKnown known (r ∷ rows) a =
      add (collect env (scan_job env []) rows) (collect-ListsKnown known rows a.1)
        (Option-cases (env.request_codec.unmarshal r.request))
    where
      add :
          (rest : Result (List (Job F)))
          → ListsKnown known rest
          → (env.request_codec.unmarshal r.request ≡ none)
            ⊎ ((request : ProfileRequest F) × (env.request_codec.unmarshal r.request
                  ≡ some request))
          → ListsKnown known (elim (scan_job env [] r) [
            | err e ↦ err e
            | ok b ↦ elim rest [ err e ↦ err e | ok bs ↦ ok (b ∷ bs) ]
          ])
      add rest h (inl e) = rw (scan_job, e) tt
      add (ok js) h (inr (request, e)) = rw (scan_job, e) (a.0, h)
      add (err m) h (inr (request, e)) = rw (scan_job, e) tt

  pub list_queued_jobs-ListsKnown :
      (limit : ℤ) (d : Db)
      → ListsKnown (index (list_queued_jobs env limit d).1.jobs) (list_queued_jobs env limit d).0
  unfolding list_queued_jobs
  list_queued_jobs-ListsKnown limit d =
      call-holds (λ r. ListsKnown (index r.1.jobs) r.0)
        (λ db.
          (collect env (scan_job env []) (take (job_limit env limit) (queued_rows db.jobs)), db))
        d (λ e. tt)
        (collect-ListsKnown (index d.jobs) _ (AllKnown-selected (job_limit env limit) d.jobs))
