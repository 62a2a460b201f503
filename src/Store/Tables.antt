-- ===== src/Store/Tables.antt =====
-- The rows of the tables jobs and profiles (migrations/001_init.sql, 003), and what the WHERE and
-- ORDER BY clauses of the store's statements select.
use data_profiler.Prelude.{
  ℕ, ◌+◌, Bool, true, false, ◌&&◌, Option, none, some, List, [], ◌∷◌, Str, lit, str_eq, ltb, leb,
  if◌then◌else◌,
}
use data_profiler.Domain.{Status, queued, running}

pub record JobRow : Type 0 where
  pub id : Str
  pub status : Status
  pub error : Option Str
  pub request : Str
  pub created_at : ℕ
  pub started_at : Option ℕ
  pub finished_at : Option ℕ
  pub idempotency_key : Option Str

-- The rows of profiles in the order of their serial ids.
pub record ProfileRow : Type 0 where
  pub job_id : Str
  pub schema_name : Str
  pub table_name : Str
  pub payload : Str
  pub created_at : ℕ

-- WHERE id=$1
unfoldable pub find_job : Str → List JobRow → Option JobRow
find_job id [] = none
find_job id (r ∷ rows) = if str_eq r.id id then some r else find_job id rows

-- `idempotency_key=$1` is not true of a NULL.
abbrev pub key_is : Str → Option Str → Bool
key_is key none = false
key_is key (some k) = str_eq k key

-- WHERE idempotency_key=$1
unfoldable pub find_key : Str → List JobRow → Option JobRow
find_key key [] = none
find_key key (r ∷ rows) = if key_is key r.idempotency_key then some r else find_key key rows

-- The primary key, and the unique index on the keys that are not NULL.
abbrev pub is_found {ℓ} : {A : Type ℓ} → Option A → Bool
is_found none = false
is_found (some a) = true

abbrev pub has_job : Str → List JobRow → Bool
has_job id rows = is_found (find_job id rows)

abbrev pub has_key : Option Str → List JobRow → Bool
has_key none rows = false
has_key (some key) rows = is_found (find_key key rows)

-- UPDATE jobs SET status, error, started_at, finished_at WHERE id
unfoldable pub update_row : Str → Status → Str → Option ℕ → Option ℕ → List JobRow → List JobRow
update_row id status error started finished [] = []
update_row id status error started finished (r ∷ rows) =
    (if str_eq r.id id
      then record r {
        status = status;
        error = some error;
        started_at = started;
        finished_at = finished;
      }
      else r)
    ∷ update_row id status error started finished rows

abbrev pub is_queued : Status → Bool
is_queued queued = true
is_queued _ = false

abbrev pub is_running : Status → Bool
is_running running = true
is_running _ = false

-- ORDER BY created_at: rows of one time stay in the order of the table.
unfoldable pub by_time : JobRow → List JobRow → List JobRow
by_time r [] = r ∷ []
by_time r (q ∷ rows) = if leb r.created_at q.created_at then r ∷ q ∷ rows else q ∷ by_time r rows

-- WHERE status='queued' ORDER BY created_at
unfoldable pub queued_rows : List JobRow → List JobRow
queued_rows [] = []
queued_rows (r ∷ rows) =
    let rest = queued_rows rows in if is_queued r.status then by_time r rest else rest

-- status='running' AND started_at IS NOT NULL AND started_at < NOW() - interval
abbrev pub started_before : ℕ → ℕ → Option ℕ → Bool
started_before now stale_after none = false
started_before now stale_after (some t) = ltb (t + stale_after) now

abbrev pub is_stale : ℕ → ℕ → JobRow → Bool
is_stale now stale_after r = is_running r.status && started_before now stale_after r.started_at

abbrev pub recover_row : ℕ → ℕ → JobRow → JobRow
recover_row now stale_after r =
    if is_stale now stale_after r
    then record r {
      status = queued;
      error = some (lit "recovered after profiler restart");
      started_at = none;
      finished_at = none;
    }
    else r

unfoldable pub count_stale : ℕ → ℕ → List JobRow → ℕ
count_stale now stale_after [] = 0
count_stale now stale_after (r ∷ rows) =
    (if is_stale now stale_after r then 1 else 0) + count_stale now stale_after rows

-- ORDER BY created_at DESC: rows of one time stay in the order of the table.
unfoldable pub latest_first : ProfileRow → List ProfileRow → List ProfileRow
latest_first r [] = r ∷ []
latest_first r (q ∷ rows) =
    if leb q.created_at r.created_at then r ∷ q ∷ rows else q ∷ latest_first r rows

-- WHERE schema_name=$1 AND table_name=$2 ORDER BY created_at DESC
unfoldable pub rows_of_table : Str → Str → List ProfileRow → List ProfileRow
rows_of_table schema table [] = []
rows_of_table schema table (r ∷ rows) =
    let rest = rows_of_table schema table rows in
    if str_eq r.schema_name schema && str_eq r.table_name table then latest_first r rest else rest

-- WHERE job_id=$1 ORDER BY created_at DESC
unfoldable pub rows_of_job : Str → List ProfileRow → List ProfileRow
rows_of_job id [] = []
rows_of_job id (r ∷ rows) =
    let rest = rows_of_job id rows in if str_eq r.job_id id then latest_first r rest else rest
