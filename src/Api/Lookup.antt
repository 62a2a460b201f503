-- ===== src/Api/Lookup.antt =====
-- A request that is accepted, and the answer to a later look at its job.
use data_profiler.Prelude.{
  ℕ, suc, ◌<◌, ◌≡◌, refl, true, false, none, some, [], ◌∷◌, ◌++◌, List, Str, str_eq, str_eq_refl,
  trim_space, leb, ◌&&◌, All, length, arith, Bool-cases, inl, inr,
}
use data_profiler.Prelude.Float.{Float64}
use data_profiler.Domain.{queued, ProfileRequest, Job, TableProfile}
use data_profiler.Store.Tables.{
  JobRow, ProfileRow, find_job, find_key, has_job, latest_first, rows_of_job,
}
use data_profiler.Store.{
  ok, Env, Db, null_string, call, scan_profile, scan_first, insert_profile, save_profile,
  get_latest_profile,
}
use data_profiler.Store.Calls.{
  NoFault, new_row, as_stored, scan_found-lem, get_job-lem, get_job_by_idempotency_key-lem,
}
use data_profiler.Worker.{System, new_job, create, on_db, capacity}
use data_profiler.Worker.Idempotency.{insert_and_enqueue_lem}
use data_profiler.Api.{
  job, profile, sanitize_job, is_incomplete, post_job, get_job_by_id, get_result,
}

find_job-append :
    (id : Str) (rows : List JobRow) (r : JobRow)
    → r.id ≡ id
    → find_job id rows ≡ none
    → find_job id (rows ++ r ∷ []) ≡ some r
unfolding find_job
find_job-append id [] r own h = rw (own, str_eq_refl id) refl
find_job-append id (q ∷ rows) r own h = elim (Bool-cases (str_eq q.id id)) [
  | inl e ↦ let bad = rw e at h in cc bad
  | inr e ↦ rw e (find_job-append id rows r own (rw e at h))
]

module _ (fl : Float64) (env : Env fl.F) (fine : NoFault env) where
  open fl use {F}

  -- A new job has its row behind the others.
  abbrev Inserts : Job F → Str → System → System → Type 0
  Inserts j b s after = after.db.jobs ≡ s.db.jobs ++ new_row env j b ∷ []

  create-Inserts :
      (id key b : Str) (now later : ℕ) (req : ProfileRequest F) (s : System)
      → env.request_codec.marshal req ≡ some b
      → s.stopped ≡ false
      → length s.queue < capacity
      → find_job id s.db.jobs ≡ none
      → find_key key s.db.jobs ≡ none
      → (after : System) × (create fl env id now later req key s
          ≡ (ok (new_job fl env id now req key), after))
        × Inserts (new_job fl env id now req key) b s after
  unfolding create null_string
  create-Inserts id [] b now later req s written_as live room no_id no_key = (
    _,
    insert_and_enqueue_lem fl env fine (new_job fl env id now req []) b later s written_as live
        (ground arith) (rw no_id refl) refl,
    refl,
  )
  create-Inserts id (c ∷ key) b now later req s written_as live room no_id no_key =
      let asked : System = record s { db = record s.db { calls = suc s.db.calls } } in
      (
        record s {
          db = record s.db {
            jobs = s.db.jobs ++ new_row env (new_job fl env id now req (c ∷ key)) b ∷ [];
            calls = suc (suc s.db.calls);
          };
          queue = s.queue ++ id ∷ [];
        },
        rw (get_job_by_idempotency_key-lem env fine, no_key)
            (insert_and_enqueue_lem fl env fine (new_job fl env id now req (c ∷ key)) b later asked
              written_as live (ground arith) (rw no_id refl) (rw no_key refl)),
        refl,
      )

  -- If no statement fails, a complete request with no key or a new one, made of a manager that is not stopped and
  -- has room in its channel, under an id that no job has, whose encoding decodes to it, is answered 202
  -- with a waiting job of that id; to GET of the id the answer is then 200 with that job, the time of its
  -- creation as the column keeps it, and no job changes.
  pub post_job-get_job_by_id :
      (id key b : Str) (now later : ℕ) (req : ProfileRequest F) (s : System)
      → is_incomplete fl env req ≡ false
      → env.request_codec.marshal req ≡ some b
      → env.request_codec.unmarshal b ≡ some req
      → s.stopped ≡ false
      → length s.queue < capacity
      → find_job id s.db.jobs ≡ none
      → find_key (trim_space key) s.db.jobs ≡ none
      → (after : System) × (j : Job F) × (post_job fl env id now later (some req) key s
          ≡ ((202, job (sanitize_job j)), after))
        × (j.id ≡ id)
        × (j.status ≡ queued)
        × ((get_job_by_id fl env id after).0 ≡ (200, job (sanitize_job (as_stored env j))))
        × ((get_job_by_id fl env id after).1.db.jobs ≡ after.db.jobs)
  unfolding post_job get_job_by_id sanitize_job
  post_job-get_job_by_id id key b now later req s complete written_as parsed live room no_id
        no_key =
      let (after, created, inserted) =
        create-Inserts id (trim_space key) b now later req s written_as live room no_id no_key in
      let j = new_job fl env id now req (trim_space key) in
      let found : find_job id after.db.jobs ≡ some (new_row env j b) =
        rw inserted (find_job-append id s.db.jobs (new_row env j b) refl no_id) in
      (
        after,
        j,
        rw (complete, created) refl,
        refl,
        refl,
        rw (get_job-lem env fine, found, scan_found-lem env [] (new_row env j b) req parsed) refl,
        rw (get_job-lem env fine, found, scan_found-lem env [] (new_row env j b) req parsed) refl,
      )

-- No profile of the job is as late as `time`.
abbrev pub AllEarlier : Str → ℕ → List ProfileRow → Type 0
AllEarlier id time = All (λ q. (str_eq q.job_id id && leb time q.created_at) ≡ false)

-- The latest row of a job comes first.
rows_of_job-append :
    (id : Str) (rows : List ProfileRow) (r : ProfileRow)
    → r.job_id ≡ id
    → AllEarlier id r.created_at rows
    → (older : List ProfileRow) × (rows_of_job id (rows ++ r ∷ []) ≡ r ∷ older)
unfolding rows_of_job latest_first
rows_of_job-append id [] r own h = ([], rw (own, str_eq_refl id) refl)
rows_of_job-append id (q ∷ rows) r own h =
    let (older, found) = rows_of_job-append id rows r own h.1 in
    elim (Bool-cases (str_eq q.job_id id)) [
      | inr e ↦ (older, rw e found)
      | inl e ↦
          let earlier : leb r.created_at q.created_at ≡ false = rw e at h.0 in
          (latest_first q older, rw (e, found) (rw earlier refl))
    ]

module _ (fl : Float64) (env : Env fl.F) (fine : NoFault env) where
  save_profile-lem :
      (id b : Str) (p : TableProfile fl.F) (d : Db)
      → env.profile_codec.marshal p ≡ some b
      → has_job id d.jobs ≡ true
      → save_profile env id p d ≡ (
        ok tt,
        record d {
          profiles =
              d.profiles
              ++ (record {
                job_id = id;
                schema_name = p.schema;
                table_name = p.table;
                payload = b;
                created_at = env.column_time p.created_at;
              })
                ∷ [];
          calls = suc d.calls;
        },
      )
  unfolding save_profile insert_profile
  save_profile-lem id b p d written_as there =
      rw (fine, call) (rw (insert_profile, written_as, there) refl)

  get_latest_profile-lem :
      (id : Str) (d : Db)
      → get_latest_profile env id d
        ≡ (scan_first env (rows_of_job id d.profiles), record d { calls = suc d.calls })
  unfolding get_latest_profile
  get_latest_profile-lem id d = rw (fine, call)

  -- If no statement fails, the profile that is saved for a job that is in the table, later than any other of that
  -- job by the times that the column keeps, and whose encoding decodes to it, is what GET of the job's result then
  -- answers.
  pub get_result-save_profile :
      (id b : Str) (p : TableProfile fl.F) (s : System)
      → env.profile_codec.marshal p ≡ some b
      → env.profile_codec.unmarshal b ≡ some p
      → has_job id s.db.jobs ≡ true
      → AllEarlier id (env.column_time p.created_at) s.db.profiles
      → ((on_db fl env (save_profile env id p) s).0 ≡ ok tt)
        × ((get_result fl env id (on_db fl env (save_profile env id p) s).1).0 ≡ (200, profile p))
  unfolding get_result
  get_result-save_profile id b p s written_as parsed there earlier =
      let row : ProfileRow = record {
        job_id = id;
        schema_name = p.schema;
        table_name = p.table;
        payload = b;
        created_at = env.column_time p.created_at;
      } in
      let (older, found) = rows_of_job-append id s.db.profiles row refl earlier in
      rw (save_profile-lem id b p s.db written_as there)
        (refl, rw (get_latest_profile-lem, found) (rw (scan_profile, parsed) refl))
