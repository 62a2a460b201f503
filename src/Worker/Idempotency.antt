-- ===== src/Worker/Idempotency.antt =====
-- What `Create` does with the idempotency key of a request.
use data_profiler.Prelude.{
  ap, subst, List, All, Bool-cases, inl, inr, ℕ, suc, ◌≡◌, ◌∙◌, refl, true, false, none, some, [],
  ◌∷◌, ◌++◌, Str, length, ltb, ◌<◌, arith,
}
use data_profiler.Prelude.Float.{Float64}
use data_profiler.Domain.{ProfileRequest, Job}
use data_profiler.Store.Tables.{JobRow, find_job, find_key, has_job, has_key}
use data_profiler.Store.{ok, Env, null_string, scan_found}
use data_profiler.Store.Calls.{
  NoFault, new_row, scan_found-lem, read_as, get_job_by_idempotency_key-lem, create_job-lem,
}
use data_profiler.Worker.{System, new_job, insert_and_enqueue, enqueue, create, capacity}
use data_profiler.Store.Tables.{key_is}
use data_profiler.Store.Index.{index, index-append, IsUnique, HasEntry, HasEntry-last}
use data_profiler.Store.Entries.{keyed_row}
use data_profiler.Worker.Shutdown.{AllReadable}
use data_profiler.Worker.Later.{Steps, create-Keeps, Steps-Keeps}

find_key-All :
    (P : JobRow → Type 0) (key : Str) (rows : List JobRow) (r : JobRow)
    → find_key key rows ≡ some r
    → All P rows
    → P r
unfolding find_key
find_key-All P key [] r h a = cc h
find_key-All P key (q ∷ rows) r h a = elim (Bool-cases (key_is key q.idempotency_key)) [
  | inl e ↦ let same : q ≡ r = (let found = rw e at h in cc found) in subst P same a.0
  | inr e ↦ find_key-All P key rows r (rw e at h) a.1
]

module _ (fl : Float64) (env : Env fl.F) (fine : NoFault env) where
  open fl use {F}

  -- A key that a job has: that job is the answer, and nothing but the count of calls changes.
  create_existing :
      (id key : Str) (c now later : ℕ) (req : ProfileRequest F) (s : System) (row : JobRow)
      (request : ProfileRequest F)
      → find_key (c ∷ key) s.db.jobs ≡ some row
      → env.request_codec.unmarshal row.request ≡ some request
      → create fl env id now later req (c ∷ key) s ≡ (
        scan_found env (c ∷ key) (some row),
        record s { db = record s.db { calls = suc s.db.calls } },
      )
  unfolding create
  create_existing id key c now later req s row request found parsed =
      rw
        (
          get_job_by_idempotency_key-lem env fine,
          found,
          scan_found-lem env (c ∷ key) row request parsed,
        )
        refl

  pub insert_and_enqueue_lem :
      (j : Job F) (b : Str) (later : ℕ) (s : System)
      → env.request_codec.marshal j.request ≡ some b
      → s.stopped ≡ false
      → ltb (length s.queue) capacity ≡ true
      → has_job j.id s.db.jobs ≡ false
      → has_key (null_string j.idempotency_key) s.db.jobs ≡ false
      → insert_and_enqueue fl env j later s ≡ (
        ok j,
        record s {
          db = record s.db { jobs = s.db.jobs ++ new_row env j b ∷ []; calls = suc s.db.calls };
          queue = s.queue ++ j.id ∷ [];
        },
      )
  unfolding insert_and_enqueue enqueue
  insert_and_enqueue_lem j b later s written_as live room no_id no_key =
      rw (live, create_job-lem env fine s.db j b written_as no_id no_key, room) refl

  -- The first request with a key.
  create_first :
      (id key b : Str) (c now later : ℕ) (req : ProfileRequest F) (s : System)
      → env.request_codec.marshal req ≡ some b
      → s.stopped ≡ false
      → length s.queue < capacity
      → find_job id s.db.jobs ≡ none
      → find_key (c ∷ key) s.db.jobs ≡ none
      → create fl env id now later req (c ∷ key) s ≡ (
        ok (new_job fl env id now req (c ∷ key)),
        record s {
          db = record s.db {
            jobs = s.db.jobs ++ new_row env (new_job fl env id now req (c ∷ key)) b ∷ [];
            calls = suc (suc s.db.calls);
          };
          queue = s.queue ++ id ∷ [];
        },
      )
  unfolding create null_string
  create_first id key b c now later req s written_as live room no_id no_key =
      let j = new_job fl env id now req (c ∷ key) in
      let asked : System = record s { db = record s.db { calls = suc s.db.calls } } in
      rw (get_job_by_idempotency_key-lem env fine, no_key)
        (insert_and_enqueue_lem j b later asked written_as live (ground arith) (rw no_id refl)
          (rw no_key refl))

  -- If no statement fails and the table's ids and keys are different, a request with a key that no job has, made of a
  -- manager that is not stopped and has room in its channel, under an id that no job has, returns the new job and
  -- puts its id at the end of the channel. Whatever methods are called then in whatever order, Enqueue only with the
  -- id of a job in the table and restarts of the process included, every later request with the key returns a job of
  -- that id and that key and changes nothing but the count of calls, whatever it asks for, if the rows can be read
  -- by then.
  pub create-repeats :
      (id key b : Str) (c now later : ℕ) (req : ProfileRequest F) (s t : System) (id' : Str)
      (now' later' : ℕ) (req' : ProfileRequest F)
      → env.request_codec.marshal req ≡ some b
      → s.stopped ≡ false
      → length s.queue < capacity
      → IsUnique (index s.db.jobs)
      → find_job id s.db.jobs ≡ none
      → find_key (c ∷ key) s.db.jobs ≡ none
      → Steps fl env (create fl env id now later req (c ∷ key) s).1 t
      → AllReadable fl env t.db.jobs
      → ((create fl env id now later req (c ∷ key) s).0 ≡ ok (new_job fl env id now req (c ∷ key)))
        × ((create fl env id now later req (c ∷ key) s).1.queue ≡ s.queue ++ id ∷ [])
        × ((j : Job F) × (create fl env id' now' later' req' (c ∷ key) t
              ≡ (ok j, record t { db = record t.db { calls = suc t.db.calls } }))
            × (j.id ≡ id)
            × (j.idempotency_key ≡ c ∷ key))
  unfolding null_string
  create-repeats id key b c now later req s t id' now' later' req' written_as live room u no_id
        no_key steps readable =
      let first = create_first id key b c now later req s written_as live room no_id no_key in
      let made = Steps-Keeps fl env req steps in
      let entry : HasEntry (id, some (c ∷ key))
          (index (create fl env id now later req (c ∷ key) s).1.db.jobs) =
        rw (first, index-append) (HasEntry-last (id, some (c ∷ key)) (index s.db.jobs)) in
      let unique = made.unique ((create-Keeps fl env id now later req (c ∷ key) s).unique u) in
      let (row, found, own) =
        keyed_row id (c ∷ key) t.db.jobs unique (made.entries (id, some (c ∷ key)) entry) in
      let (request, parsed) = find_key-All _ (c ∷ key) t.db.jobs row found readable in
      (
        ap (λ r. r.0) first,
        ap (λ r. r.1.queue) first,
        (
          read_as env (c ∷ key) row request,
          create_existing id' key c now' later' req' t row request found parsed
              ∙ ap (λ r. (r, record t { db = record t.db { calls = suc t.db.calls } }))
                  (scan_found-lem env (c ∷ key) row request parsed),
          own,
          refl,
        ),
      )
