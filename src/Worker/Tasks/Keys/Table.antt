-- ===== src/Worker/Tasks/Keys/Table.antt =====
-- The idempotency keys in the table: the rows that CreateJob writes and GetJobByIdempotencyKey reads.
use data_profiler.Prelude.{
  suc, ◌≡◌, ◌⊎◌, ◌||◌, refl, inl, inr, Option, none, some, List, [], ◌∷◌, ◌++◌, Str, Bool-cases,
  Option-cases,
}
use data_profiler.Domain.{Job}
use data_profiler.Store.Tables.{JobRow, find_key, has_job, has_key}
use data_profiler.Store.{
  Result, ok, err, Env, Db, null_string, insert_job, create_job, get_job_by_idempotency_key,
  scan_job, scan_found,
}
use data_profiler.Store.Index.{Entry, index, index-append, HasEntry, HasEntry-last}
use data_profiler.Store.Keeps.{call-holds}
use data_profiler.Store.Entries.{row_of_key}

-- The job has its key in the table.
abbrev pub Held : {F : Type 0} → Job F → List Entry → Type 0
Held j ix = (j.idempotency_key ≡ []) ⊎ HasEntry (j.id, some j.idempotency_key) ix

module _ {F : Type 0} (env : Env F) where
  abbrev pub Found : Result (Job F) × Db → Type 0
  Found (ok j, d) = Held j (index d.jobs)
  Found (err e, d) = Unit

  abbrev pub Inserted : Job F → Result (Unit {0}) × Db → Type 0
  Inserted j (ok u, d) = Held j (index d.jobs)
  Inserted j (err e, d) = Unit

  pub get_job_by_idempotency_key-Found :
      (key : Str) (d : Db) → Found (get_job_by_idempotency_key env key d)
  unfolding get_job_by_idempotency_key Found
  get_job_by_idempotency_key-Found key d =
      call-holds env Found (λ db. (scan_found env key (find_key key db.jobs), db)) d (λ e. tt)
        (go (find_key key d.jobs) refl)
    where
      go :
          (found : Option JobRow)
          → find_key key d.jobs ≡ found
          → Found (scan_found env key found, record d { calls = suc d.calls })
      go none at = tt
      go (some r) at = elim (Option-cases (env.request_codec.unmarshal r.request)) [
        | inl e ↦ rw (scan_job, e) tt
        | inr (request, e) ↦ rw (scan_job, e) (inr (row_of_key key d.jobs r at))
      ]

  Held-new :
      (j : Job F) (key : Str) (l : List Entry)
      → j.idempotency_key ≡ key
      → Held j (l ++ (j.id, null_string key) ∷ [])
  unfolding null_string
  Held-new j [] l same = inl same
  Held-new j (c ∷ key) l same = inr (rw same (HasEntry-last (j.id, some (c ∷ key)) l))

  insert_job-Inserted : (j : Job F) (d : Db) → Inserted j (insert_job env j d)
  unfolding insert_job Inserted
  insert_job-Inserted j d = elim (Option-cases (env.request_codec.marshal j.request)) [
    | inl e ↦ rw (insert_job, e) tt
    | inr (b, e) ↦
        elim (Bool-cases (has_job j.id d.jobs || has_key (null_string j.idempotency_key) d.jobs)) [
          | inl h ↦ rw (insert_job, e, h) tt
          | inr h ↦
              rw (insert_job, e, h)
                (rw index-append (Held-new j j.idempotency_key (index d.jobs) refl))
        ]
  ]

  pub create_job-Inserted : (j : Job F) (d : Db) → Inserted j (create_job env j d)
  unfolding create_job Inserted
  create_job-Inserted j d =
      call-holds env (Inserted j) (insert_job env j) d (λ e. tt)
        (insert_job-Inserted j (record d { calls = suc d.calls }))
