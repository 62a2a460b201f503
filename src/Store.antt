-- ===== src/Store.antt =====
-- internal/store/store.go over the two tables of migrations/: each method is the SQL statement that it
-- sends. Any call may fail before it has an effect; which do is the environment's choice.
pub mod Tables
pub mod Calls
pub mod Index
pub mod Keeps
pub mod Entries
pub mod Oldest
use data_profiler.Prelude.{
  ℕ, suc, ◌-◌, Bool, true, false, not, ◌||◌, ◌&&◌, Option, none, some, List, [], ◌∷◌, ◌++◌, map,
  Str, lit, str_eq, take, ltb, leb, length, if◌then◌else◌,
}
use data_profiler.Prelude.Int.{ℤ, pos, pos_part, leb_ℤ, ltb_ℤ}
use data_profiler.Domain.{Status, queued, running, ProfileRequest, Job, TableProfile}
use Tables.{
  JobRow, ProfileRow, find_job, find_key, has_job, has_key, update_row, queued_rows, is_stale,
  recover_row, count_stale, rows_of_table, rows_of_job,
}

pub data Result {ℓ} (A : Type ℓ) : Type ℓ where
  ok : A → Result A
  err : Str → Result A

-- encoding/json for one type: what `Marshal` writes, if it can, and what `Unmarshal` reads.
pub record Codec (A : Type 0) : Type 0 where
  pub marshal : A → Option Str
  pub unmarshal : Str → Option A

-- What the store's methods meet outside the program: the JSON codecs, the message of a violated
-- constraint, for each call in turn the error with which the database connection fails, if it does, and what a
-- column TIMESTAMPTZ keeps of a time.
pub record Env (F : Type 0) : Type 0 where
  pub request_codec : Codec (ProfileRequest F)
  pub profile_codec : Codec (TableProfile F)
  pub violation : Str
  pub bad_json : Str
  pub fault : ℕ → Option Str
  pub column_time : ℕ → ℕ

-- The two tables, and how many calls have been made.
pub record Db : Type 0 where
  pub jobs : List JobRow
  pub profiles : List ProfileRow
  pub calls : ℕ

abbrev pub no_rows : Str
no_rows = lit "sql: no rows in result set"

-- ten to the ninth nanoseconds to the second
abbrev pub half_hour : ℤ
half_hour = pos 1800000000000

-- `nullString`
unfoldable pub null_string : Str → Option Str
null_string [] = none
null_string (c ∷ s) = some (c ∷ s)

module _ {F : Type 0} (env : Env F) where
  -- One call: it fails, or it does what `op` says.
  abbrev pub call : {A : Type 0} → (Db → Result A × Db) → Db → Result A × Db
  call op db = elim (env.fault db.calls) [
    | none ↦ op (record db { calls = suc db.calls })
    | some e ↦ (err e, record db { calls = suc db.calls })
  ]

  -- INSERT INTO jobs: the primary key, the unique index on the idempotency keys, and NOT NULL for the
  -- request refuse a row.
  unfoldable pub insert_job : Job F → Db → Result (Unit {0}) × Db
  insert_job j db = elim (env.request_codec.marshal j.request) [
    | none ↦ (err env.violation, db)
    | some b ↦
        if has_job j.id db.jobs || has_key (null_string j.idempotency_key) db.jobs
        then (err env.violation, db)
        else (
          ok tt,
          record db {
            jobs =
                db.jobs
                ++ (record {
                  id = j.id;
                  status = j.status;
                  error = none;
                  request = b;
                  created_at = env.column_time j.created_at;
                  started_at = none;
                  finished_at = none;
                  idempotency_key = null_string j.idempotency_key;
                })
                  ∷ [];
          },
        )
  ]

  unfoldable pub create_job : Job F → Db → Result (Unit {0}) × Db
  unfolding insert_job
  create_job j = call (insert_job j)

  abbrev pub kept : Option ℕ → Option ℕ
  kept none = none
  kept (some t) = some (env.column_time t)

  -- UPDATE jobs SET ... WHERE id=$1: no row with the id is no error.
  unfoldable pub update_job : Job F → Db → Result (Unit {0}) × Db
  update_job j = call (λ db. (
    ok tt,
    record db {
      jobs = update_row j.id j.status j.error (kept j.started_at) (kept j.finished_at) db.jobs;
    },
  ))

  abbrev pub row_value : {A : Type 0} → Option A → Result A
  row_value none = err env.bad_json
  row_value (some a) = ok a

  -- The columns of a row and the parsed request. `COALESCE(error,'')`.
  abbrev pub text_or_empty : Option Str → Str
  text_or_empty none = []
  text_or_empty (some s) = s

  abbrev pub scan_job : Str → JobRow → Result (Job F)
  scan_job key row = elim (env.request_codec.unmarshal row.request) [
    | none ↦ err env.bad_json
    | some request ↦ ok (record {
      id = row.id;
      status = row.status;
      error = text_or_empty row.error;
      request = request;
      idempotency_key = key;
      created_at = row.created_at;
      started_at = row.started_at;
      finished_at = row.finished_at;
    })
  ]

  abbrev pub scan_found : Str → Option JobRow → Result (Job F)
  scan_found key none = err no_rows
  scan_found key (some row) = scan_job key row

  unfoldable pub get_job_by_idempotency_key : Str → Db → Result (Job F) × Db
  get_job_by_idempotency_key key = call (λ db. (scan_found key (find_key key db.jobs), db))

  -- `GetJob` does not read the idempotency key.
  unfoldable pub get_job : Str → Db → Result (Job F) × Db
  get_job id = call (λ db. (scan_found [] (find_job id db.jobs), db))

  -- All rows, or the first error.
  abbrev pub collect : {A B : Type 0} → (A → Result B) → List A → Result (List B)
  collect scan [] = ok []
  collect scan (row ∷ rows) =
      let rest = collect scan rows in
      elim (scan row) [ err e ↦ err e | ok b ↦ elim rest [ err e ↦ err e | ok bs ↦ ok (b ∷ bs) ] ]

  abbrev pub job_limit : ℤ → ℕ
  job_limit limit = if leb_ℤ limit (pos 0) || ltb_ℤ (pos 1000) limit then 1000 else pos_part limit

  unfoldable pub list_queued_jobs : ℤ → Db → Result (List (Job F)) × Db
  list_queued_jobs limit =
      call (λ db. (collect (scan_job []) (take (job_limit limit) (queued_rows db.jobs)), db))

  -- `now` is the database's clock. The interval is the duration, or half an hour if that is not positive.
  unfoldable pub recover_stale_running_jobs : ℕ → ℤ → Db → Result ℕ × Db
  recover_stale_running_jobs now stale_after =
      let interval = pos_part (if leb_ℤ stale_after (pos 0) then half_hour else stale_after) in
      call (λ db. (
        ok (count_stale now interval db.jobs),
        record db { jobs = map (recover_row now interval) db.jobs },
      ))

  -- INSERT INTO profiles: the foreign key and NOT NULL for the payload refuse a row.
  unfoldable pub insert_profile : Str → TableProfile F → Db → Result (Unit {0}) × Db
  insert_profile id p db = elim (env.profile_codec.marshal p) [
    | none ↦ (err env.violation, db)
    | some b ↦
        if has_job id db.jobs
        then (
          ok tt,
          record db {
            profiles =
                db.profiles
                ++ (record {
                  job_id = id;
                  schema_name = p.schema;
                  table_name = p.table;
                  payload = b;
                  created_at = env.column_time p.created_at;
                })
                  ∷ [];
          },
        )
        else (err env.violation, db)
  ]

  unfoldable pub save_profile : Str → TableProfile F → Db → Result (Unit {0}) × Db
  unfolding insert_profile
  save_profile id p = call (insert_profile id p)

  abbrev pub scan_profile : ProfileRow → Result (TableProfile F)
  scan_profile row = row_value (env.profile_codec.unmarshal row.payload)

  -- LIMIT 1 of the selected rows.
  abbrev pub scan_first : List ProfileRow → Result (TableProfile F)
  scan_first [] = err no_rows
  scan_first (row ∷ rows) = scan_profile row

  unfoldable pub get_latest_profile : Str → Db → Result (TableProfile F) × Db
  get_latest_profile id = call (λ db. (scan_first (rows_of_job id db.profiles), db))

  unfoldable pub get_previous_profile : Str → Str → Db → Result (TableProfile F) × Db
  get_previous_profile schema table =
      call (λ db. (scan_first (rows_of_table schema table db.profiles), db))

  abbrev pub history_limit : ℤ → ℕ
  history_limit limit = if leb_ℤ limit (pos 0) || ltb_ℤ (pos 100) limit then 20 else pos_part limit

  unfoldable pub get_profile_history : Str → Str → ℤ → Db → Result (List (TableProfile F)) × Db
  get_profile_history schema table limit = call (λ db. (
    collect scan_profile (take (history_limit limit) (rows_of_table schema table db.profiles)),
    db,
  ))
