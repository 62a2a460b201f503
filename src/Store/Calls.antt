-- ===== src/Store/Calls.antt =====
-- What the store's statements do to the rows that they name, when the connection does not fail.
use data_profiler.Prelude.{
  ℕ, suc, ◌≡◌, refl, sym, ap, ◌∙◌, false, Option, none, some, List, [], ◌∷◌, ◌++◌, Str, str_eq,
  str_eq_iff, str_eq_refl, Bool-cases, inl, inr,
}
use data_profiler.Domain.{Status, ProfileRequest, Job}
use data_profiler.Store.Tables.{JobRow, find_job, find_key, key_is, has_job, has_key, update_row}
use data_profiler.Store.{
  kept, ok, Env, Db, null_string, call, text_or_empty, scan_job, scan_found, insert_job, create_job,
  update_job, get_job, get_job_by_idempotency_key, scan_first, get_previous_profile,
}
use data_profiler.Store.Tables.{rows_of_table}

pub find_job-id :
    (id : Str) (rows : List JobRow) (r : JobRow) → find_job id rows ≡ some r → r.id ≡ id
unfolding find_job
find_job-id id [] r h = cc h
find_job-id id (q ∷ rows) r h = elim (Bool-cases (str_eq q.id id)) [
  | inl e ↦
      let first : q.id ≡ id = (str_eq_iff q.id id).0 e in
      let same = rw e at h in ap (λ o. elim o [ none ↦ id | some x ↦ x.id ]) (sym same) ∙ first
  | inr e ↦ find_job-id id rows r (rw e at h)
]

pub find_key-append :
    (key : Str) (rows : List JobRow) (r : JobRow)
    → find_key key rows ≡ none
    → r.idempotency_key ≡ some key
    → find_key key (rows ++ r ∷ []) ≡ some r
unfolding find_key
find_key-append key [] r h at = rw (at, str_eq_refl)
find_key-append key (q ∷ rows) r h at = elim (Bool-cases (key_is key q.idempotency_key)) [
  | inl e ↦ let found = rw e at h in cc found
  | inr e ↦ rw e (find_key-append key rows r (rw e at h) at)
]

-- The row after an UPDATE.
abbrev pub written : Status → Str → Option ℕ → Option ℕ → JobRow → JobRow
written status error started finished r = record r {
  status = status;
  error = some error;
  started_at = started;
  finished_at = finished;
}

module _ (id : Str) (status : Status) (error : Str) (started finished : Option ℕ) where
  pub find_job-update_row :
      (rows : List JobRow) (r : JobRow)
      → find_job id rows ≡ some r
      → find_job id (update_row id status error started finished rows)
        ≡ some (written status error started finished r)
  unfolding find_job update_row
  find_job-update_row [] r h = cc h
  find_job-update_row (q ∷ rows) r h = elim (Bool-cases (str_eq q.id id)) [
    | inl e ↦
        let same = rw e at h in
        rw (e, e)
          (ap
            (λ o. elim o [ none ↦ none | some x ↦ some (written status error started finished x) ])
            same)
    | inr e ↦ rw (e, e) (find_job-update_row rows r (rw e at h))
  ]

  -- The rows of the other ids stay.
  pub find_job-update_row_other :
      (k : Str)
      → str_eq id k ≡ false
      → (rows : List JobRow)
      → find_job k (update_row id status error started finished rows) ≡ find_job k rows
  unfolding find_job update_row
  find_job-update_row_other k other [] = refl
  find_job-update_row_other k other (q ∷ rows) =
      let ih = find_job-update_row_other k other rows in
      elim (Bool-cases (str_eq q.id id)) [
        | inl e ↦
            let same : q.id ≡ id = (str_eq_iff q.id id).0 e in
            let differs : str_eq q.id k ≡ false = rw same other in rw (e, differs, ih)
        | inr e ↦ elim (Bool-cases (str_eq q.id k)) [ inl h ↦ rw (e, h) | inr h ↦ rw (e, h, ih) ]
      ]

-- The row of a new job, whose request is written as `b`.
abbrev pub new_row : {F : Type 0} → Env F → Job F → Str → JobRow
new_row env j b = record {
  id = j.id;
  status = j.status;
  error = none;
  request = b;
  created_at = env.column_time j.created_at;
  started_at = none;
  finished_at = none;
  idempotency_key = null_string j.idempotency_key;
}

-- A job as its row is read back, when nothing else has been written to it.
abbrev pub as_stored : {F : Type 0} → Env F → Job F → Job F
as_stored env j = record j { created_at = env.column_time j.created_at }

module _ {F : Type 0} (env : Env F) where
  abbrev pub NoFault : Type 0
  NoFault = (n : ℕ) → env.fault n ≡ none

  -- A row as it is read back.
  abbrev pub read_as : Str → JobRow → ProfileRequest F → Job F
  read_as key row request = record {
    id = row.id;
    status = row.status;
    error = text_or_empty env row.error;
    request = request;
    idempotency_key = key;
    created_at = row.created_at;
    started_at = row.started_at;
    finished_at = row.finished_at;
  }

  pub scan_found-lem :
      (key : Str) (row : JobRow) (request : ProfileRequest F)
      → env.request_codec.unmarshal row.request ≡ some request
      → scan_found env key (some row) ≡ ok (read_as key row request)
  scan_found-lem key row request parsed = rw (scan_found, scan_job, parsed)

  module _ (fine : NoFault) (d : Db) where
    pub get_job-lem :
        (id : Str)
        → get_job env id d
          ≡ (scan_found env [] (find_job id d.jobs), record d { calls = suc d.calls })
    unfolding get_job
    get_job-lem id = rw (fine, call)

    pub update_job-lem :
        (j : Job F)
        → update_job env j d ≡ (
          ok tt,
          record d {
            jobs =
                update_row j.id j.status j.error
                  (kept env j.started_at)
                  (kept env j.finished_at)
                  d.jobs;
            calls = suc d.calls;
          },
        )
    unfolding update_job
    update_job-lem j = rw (fine, call)

    pub get_job_by_idempotency_key-lem :
        (key : Str)
        → get_job_by_idempotency_key env key d
          ≡ (scan_found env key (find_key key d.jobs), record d { calls = suc d.calls })
    unfolding get_job_by_idempotency_key
    get_job_by_idempotency_key-lem key = rw (fine, call)

    pub get_previous_profile-lem :
        (schema table : Str)
        → get_previous_profile env schema table d ≡ (
          scan_first env (rows_of_table schema table d.profiles),
          record d { calls = suc d.calls },
        )
    unfolding get_previous_profile
    get_previous_profile-lem schema table = rw (fine, call)

    pub create_job-lem :
        (j : Job F) (b : Str)
        → env.request_codec.marshal j.request ≡ some b
        → has_job j.id d.jobs ≡ false
        → has_key (null_string j.idempotency_key) d.jobs ≡ false
        → create_job env j d
          ≡ (ok tt, record d { jobs = d.jobs ++ new_row env j b ∷ []; calls = suc d.calls })
    unfolding create_job insert_job
    create_job-lem j b written_as no_id no_key =
        rw (fine, call) (rw (insert_job, written_as, no_id, no_key) refl)
