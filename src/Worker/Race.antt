-- ===== src/Worker/Race.antt =====
-- Two requests with one idempotency key at a time: both have looked the key up and found no job.
use data_profiler.Prelude.{
  ℕ, suc, ◌<◌, ◌≡◌, refl, ◌∙◌, true, false, none, some, [], ◌∷◌, ◌++◌, Str, length, Option-cases,
  Bool-cases, inl, inr, arith,
}
use data_profiler.Prelude.Float.{Float64}
use data_profiler.Domain.{ProfileRequest, Job}
use data_profiler.Store.Tables.{JobRow, find_job, find_key, has_job, has_key}
use data_profiler.Store.{ok, err, Env, Db, call, null_string, scan_found, create_job, insert_job}
use data_profiler.Store.Calls.{
  NoFault, new_row, as_stored, scan_found-lem, get_job_by_idempotency_key-lem, find_key-append,
}
use data_profiler.Worker.{System, new_job, insert_and_enqueue, capacity}
use data_profiler.Worker.Idempotency.{insert_and_enqueue_lem}

module _ (fl : Float64) (env : Env fl.F) (fine : NoFault env) where
  open fl use {F}

  -- The unique index refuses a second row with a key.
  create_job-refused :
      (j : Job F) (d : Db)
      → has_key (null_string j.idempotency_key) d.jobs ≡ true
      → create_job env j d ≡ (err env.violation, record d { calls = suc d.calls })
  unfolding create_job insert_job
  create_job-refused j d taken = elim (Option-cases (env.request_codec.marshal j.request)) [
    | inl e ↦ rw (fine, call) (rw (insert_job, e) refl)
    | inr (b, e) ↦ elim (Bool-cases (has_job j.id d.jobs)) [
      | inl h ↦ rw (fine, call) (rw (insert_job, e, h) refl)
      | inr h ↦ rw (fine, call) (rw (insert_job, e, h, taken) refl)
    ]
  ]

  -- The later of the two gets the job of the other.
  second_insert :
      (j : Job F) (c : ℕ) (key : Str) (later : ℕ) (s : System) (row : JobRow)
      (request : ProfileRequest F)
      → j.idempotency_key ≡ c ∷ key
      → s.stopped ≡ false
      → find_key (c ∷ key) s.db.jobs ≡ some row
      → env.request_codec.unmarshal row.request ≡ some request
      → insert_and_enqueue fl env j later s ≡ (
        scan_found env (c ∷ key) (some row),
        record s { db = record s.db { calls = suc (suc s.db.calls) } },
      )
  unfolding insert_and_enqueue null_string
  second_insert j c key later s row request keyed live found parsed =
      let taken : has_key (null_string j.idempotency_key) s.db.jobs ≡ true =
        rw (keyed, found) refl in
      rw (live, create_job-refused j s.db taken, keyed)
        (rw
          (
            get_job_by_idempotency_key-lem env fine,
            found,
            scan_found-lem env (c ∷ key) row request parsed,
          )
          refl)

  -- If no statement fails and two requests with one key have both found no job of that key, then the one that
  -- inserts first gets its new job, whose id goes to the end of the channel, and the other one gets that job
  -- as it is stored: no second row is written and no second id goes to the channel. The manager is not stopped and
  -- has room in its channel, no job has the first one's id, and the encoding of its request decodes to it.
  pub insert_and_enqueue-race :
      (id id' key b : Str) (c now now' later later' : ℕ) (req req' : ProfileRequest F) (s : System)
      → env.request_codec.marshal req ≡ some b
      → env.request_codec.unmarshal b ≡ some req
      → s.stopped ≡ false
      → length s.queue < capacity
      → find_job id s.db.jobs ≡ none
      → find_key (c ∷ key) s.db.jobs ≡ none
      → (middle : System) × (last : System) × (insert_and_enqueue fl env
            (new_job fl env id now req (c ∷ key))
            later
            s
          ≡ (ok (new_job fl env id now req (c ∷ key)), middle))
        × (insert_and_enqueue fl env (new_job fl env id' now' req' (c ∷ key)) later' middle
            ≡ (ok (as_stored env (new_job fl env id now req (c ∷ key))), last))
        × (middle.queue ≡ s.queue ++ id ∷ [])
        × (last.queue ≡ middle.queue)
        × (last.db.jobs ≡ middle.db.jobs)
  unfolding null_string
  insert_and_enqueue-race id id' key b c now now' later later' req req' s written_as parsed live
        room no_id no_key =
      let j = new_job fl env id now req (c ∷ key) in
      let middle : System = record s {
        db = record s.db { jobs = s.db.jobs ++ new_row env j b ∷ []; calls = suc s.db.calls };
        queue = s.queue ++ id ∷ [];
      } in
      let found : find_key (c ∷ key) middle.db.jobs ≡ some (new_row env j b) =
        find_key-append (c ∷ key) s.db.jobs (new_row env j b) no_key refl in
      (
        middle,
        record middle { db = record middle.db { calls = suc (suc middle.db.calls) } },
        insert_and_enqueue_lem fl env fine j b later s written_as live (ground arith)
            (rw no_id refl) (rw no_key refl),
        second_insert (new_job fl env id' now' req' (c ∷ key)) c key later' middle (new_row env j b)
              req refl live found parsed
            ∙ rw (scan_found-lem env (c ∷ key) (new_row env j b) req parsed) refl,
        refl,
        refl,
        refl,
      )
