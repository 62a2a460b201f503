-- ===== src/Worker/Tasks/Calls.antt =====
-- What a call of the store tells of the ids, whether it fails or not.
use data_profiler.Prelude.{
  suc, ◌≡◌, refl, false, Option, none, some, List, [], ◌∷◌, Str, str_eq, str_eq_iff, Bool-cases,
  Option-cases, inl, inr,
}
use data_profiler.Domain.{Job}
use data_profiler.Store.Tables.{JobRow, find_job, has_job, has_key}
use data_profiler.Store.{
  Result, ok, err, Env, Db, null_string, insert_job, create_job, get_job, scan_found, scan_job,
}
use data_profiler.Store.Index.{index, HasId}
use data_profiler.Store.Keeps.{call-holds}
use data_profiler.Store.Calls.{find_job-id}

not-HasId : (id : Str) (rows : List JobRow) → has_job id rows ≡ false → HasId id (index rows) → ⊥
unfolding find_job
not-HasId id [] h known = known
not-HasId id (r ∷ rows) h known = elim (Bool-cases (str_eq r.id id)) [
  | inl same ↦ let found = rw same at h in cc found
  | inr other ↦ elim known [
    | inl own ↦ let same = (str_eq_iff r.id id).1 own in cc (same, other)
    | inr rest ↦ not-HasId id rows (rw other at h) rest
  ]
]

module _ {F : Type 0} (env : Env F) where
  -- A job that is inserted has an id that no row had.
  abbrev pub WasFresh : Str → List JobRow → Result (Unit {0}) × Db → Type 0
  WasFresh id before (ok u, d) = ¬ HasId id (index before)
  WasFresh id before (err e, d) = Unit

  insert_job-WasFresh : (j : Job F) (d : Db) → WasFresh j.id d.jobs (insert_job env j d)
  unfolding insert_job
  insert_job-WasFresh j d = elim (Option-cases (env.request_codec.marshal j.request)) [
    | inl e ↦ rw (insert_job, e) tt
    | inr (b, e) ↦ elim (Bool-cases (has_job j.id d.jobs)) [
      | inl h ↦ rw (insert_job, e, h) tt
      | inr h ↦ elim (Bool-cases (has_key (null_string j.idempotency_key) d.jobs)) [
        | inl k ↦ rw (insert_job, e, h, k) tt
        | inr k ↦ rw (insert_job, e, h, k) (not-HasId j.id d.jobs h)
      ]
    ]
  ]

  pub create_job-WasFresh : (j : Job F) (d : Db) → WasFresh j.id d.jobs (create_job env j d)
  unfolding create_job
  create_job-WasFresh j d =
      call-holds env (WasFresh j.id d.jobs) (insert_job env j) d (λ e. tt)
        (insert_job-WasFresh j (record d { calls = suc d.calls }))

  -- A job that is found has the id that was asked for.
  abbrev pub AsAsked : Str → Result (Job F) × Db → Type 0
  AsAsked id (ok j, d) = j.id ≡ id
  AsAsked id (err e, d) = Unit

  scan_found-AsAsked :
      (id : Str) (found : Option JobRow) (d : Db)
      → ((r : JobRow) → found ≡ some r → r.id ≡ id)
      → AsAsked id (scan_found env [] found, d)
  scan_found-AsAsked id none d own = tt
  scan_found-AsAsked id (some r) d own =
      elim (Option-cases (env.request_codec.unmarshal r.request)) [
        | inl e ↦ rw (scan_job, e) tt
        | inr (request, e) ↦ rw (scan_job, e) (own r refl)
      ]

  pub get_job-AsAsked : (id : Str) (d : Db) → AsAsked id (get_job env id d)
  unfolding get_job
  get_job-AsAsked id d =
      call-holds env (AsAsked id) (λ db. (scan_found env [] (find_job id db.jobs), db)) d (λ e. tt)
        (scan_found-AsAsked id (find_job id d.jobs) _ (find_job-id id d.jobs))
