-- ===== src/Worker/Restart.antt =====
-- What `Start` puts into the channel.
use data_profiler.Prelude.{
  ℕ, zero, suc, ◌+◌, ◌≡◌, ◌≤◌, refl, sym, ap, ◌∙◌, subst, true, false, some, List, [], ◌∷◌, ◌++◌,
  Str, map, length, take, leb, ltb, Bool-cases, inl, inr, arith, length-append, length-take_le,
}
use data_profiler.Prelude.Int.{ℤ, pos}
use data_profiler.Prelude.Float.{Float64}
use data_profiler.Domain.{ProfileRequest, Job}
use data_profiler.Store.Tables.{
  JobRow, find_job, is_queued, by_time, queued_rows, is_stale, recover_row,
}
use data_profiler.Store.{
  Result, ok, Env, Db, call, scan_job, collect, list_queued_jobs, recover_stale_running_jobs,
}
use data_profiler.Store.Calls.{NoFault, scan_found-lem}
use data_profiler.Store.Oldest.{IsOldestFirst, waits, rows_that, id-recover_row, queued_rows-oldest}
use data_profiler.Worker.Shutdown.{AllReadable, is_waiting}
use data_profiler.Worker.Valid.{enqueue-db}
use data_profiler.Worker.{System, capacity, enqueue, enqueue_all, start}
use data_profiler.Worker.Waiting.{
  ids_of, In, interval_of, In-queued_rows, is_waiting-recover, take-all,
}
use mathlib.Core.List.{Perm}

append-nil : (l : List Str) → l ++ [] ≡ l
append-nil [] = refl
append-nil (x ∷ l) = ap (λ k. x ∷ k) (append-nil l)

append-snoc : (l : List Str) (x : Str) (k : List Str) → (l ++ x ∷ []) ++ k ≡ l ++ x ∷ k
append-snoc [] x k = refl
append-snoc (y ∷ l) x k = ap (λ m. y ∷ m) (append-snoc l x k)

module _ (fl : Float64) (env : Env fl.F) where
  open fl use {F}

  pub recover-AllReadable :
      (now interval : ℕ) (rows : List JobRow)
      → AllReadable fl env rows
      → AllReadable fl env (map (recover_row now interval) rows)
  recover-AllReadable now interval [] a = tt
  recover-AllReadable now interval (r ∷ rows) a =
      let rest = recover-AllReadable now interval rows a.1 in
      elim (Bool-cases (is_stale now interval r)) [
        | inl e ↦ rw e (a.0, rest)
        | inr e ↦ rw e (a.0, rest)
      ]

  by_time-AllReadable :
      (r : JobRow) (rows : List JobRow)
      → AllReadable fl env (r ∷ rows)
      → AllReadable fl env (by_time r rows)
  unfolding by_time
  by_time-AllReadable r [] a = a
  by_time-AllReadable r (q ∷ rows) a = elim (Bool-cases (leb r.created_at q.created_at)) [
    | inl e ↦ rw e a
    | inr e ↦ rw e (a.1.0, by_time-AllReadable r rows (a.0, a.1.1))
  ]

  queued_rows-AllReadable :
      (rows : List JobRow) → AllReadable fl env rows → AllReadable fl env (queued_rows rows)
  unfolding queued_rows
  queued_rows-AllReadable [] a = tt
  queued_rows-AllReadable (r ∷ rows) a =
      let rest = queued_rows-AllReadable rows a.1 in
      elim (Bool-cases (is_queued r.status)) [
        | inl e ↦ rw e (by_time-AllReadable r (queued_rows rows) (a.0, rest))
        | inr e ↦ rw e rest
      ]

  take-AllReadable :
      (n : ℕ) (rows : List JobRow) → AllReadable fl env rows → AllReadable fl env (take n rows)
  take-AllReadable zero rows a = tt
  take-AllReadable (suc n) [] a = tt
  take-AllReadable (suc n) (r ∷ rows) a = (a.0, take-AllReadable n rows a.1)

  -- Rows that can be read are all listed.
  Lists : List JobRow → Result (List (Job F)) → Type 0
  Lists rows r =
      (js : List (Job F)) × (r ≡ ok js)
      × (map (λ j. j.id) js ≡ ids_of rows)
      × (length js ≡ length rows)

  scan_readable :
      (r : JobRow) (request : ProfileRequest F)
      → env.request_codec.unmarshal r.request ≡ some request
      → (j : Job F) × (scan_job env [] r ≡ ok j) × (j.id ≡ r.id)
  scan_readable r request parsed = (_, scan_found-lem env [] r request parsed, refl)

  collect-cons :
      {A B : Type 0} (scan : A → Result B) (a : A) (l : List A) (b : B) (k : List B)
      → scan a ≡ ok b
      → collect env scan l ≡ ok k
      → collect env scan (a ∷ l) ≡ ok (b ∷ k)
  collect-cons scan a l b k h i = rw (collect, h, i) refl

  collect-Lists :
      (rows : List JobRow)
      → AllReadable fl env rows
      → Lists rows (collect env (scan_job env []) rows)
  unfolding Lists
  collect-Lists [] a = ([], refl, refl, refl)
  collect-Lists (r ∷ rows) a =
      let (request, parsed) = a.0 in
      let (js, listed, same, len) = collect-Lists rows a.1 in
      let (j, scanned, own) = scan_readable r request parsed in
      (
        j ∷ js,
        collect-cons (scan_job env []) r rows j js scanned listed,
        cc (own, same),
        omega (arith, len),
      )

  enqueue_all-queue :
      (js : List (Job F)) (s : System)
      → s.stopped ≡ false
      → length s.queue + length js ≤ capacity
      → (enqueue_all fl env js s).queue ≡ s.queue ++ map (λ j. j.id) js
  unfolding enqueue_all enqueue
  enqueue_all-queue [] s runs room = sym (append-nil s.queue)
  enqueue_all-queue (j ∷ js) s runs room =
      let free : ltb (length s.queue) capacity ≡ true = ground arith in
      let longer = length-append s.queue (j.id ∷ []) in
      rw (runs, free)
        (enqueue_all-queue js (record s { queue = s.queue ++ j.id ∷ []; stopped = false }) refl
            (omega (arith, longer, room))
          ∙ append-snoc s.queue j.id (map (λ j'. j'.id) js))

  -- The ids that `Start` finds in the table.
  abbrev pub requeued : ℕ → System → List Str
  requeued now s =
      ids_of (take 1000 (queued_rows (map (recover_row now (interval_of s.stale_after)) s.db.jobs)))

  list_queued_jobs-Lists :
      (d : Db) (fine : NoFault env)
      → AllReadable fl env d.jobs
      → (js : List (Job F)) × (list_queued_jobs env (pos capacity) d
          ≡ (ok js, record d { calls = suc d.calls }))
        × (map (λ j. j.id) js ≡ ids_of (take 1000 (queued_rows d.jobs)))
        × (length js ≤ 1000)
  unfolding list_queued_jobs Lists
  list_queued_jobs-Lists d fine a =
      let rows = take 1000 (queued_rows d.jobs) in
      let short = length-take_le 1000 (queued_rows d.jobs) in
      let (js, listed, same, len) =
        collect-Lists rows
          (take-AllReadable 1000 (queued_rows d.jobs) (queued_rows-AllReadable d.jobs a)) in
      (
        js,
        rw (fine, call) (ap (λ r. (r, record d { calls = suc d.calls })) listed),
        same,
        omega (arith, len, short),
      )

  recovered-lem :
      (now : ℕ) (stale_after : ℤ) (d : Db) (fine : NoFault env)
      → (recover_stale_running_jobs env now stale_after d).1 ≡ record d {
        jobs = map (recover_row now (interval_of stale_after)) d.jobs;
        calls = suc d.calls;
      }
  unfolding recover_stale_running_jobs
  recovered-lem now stale_after d fine = rw (fine, call) refl

  pub start-queue :
      (now : ℕ) (s : System) (fine : NoFault env)
      → s.started ≡ false
      → s.queue ≡ []
      → AllReadable fl env s.db.jobs
      → (start fl env now s).queue ≡ requeued now s
  unfolding start
  start-queue now s fine fresh empty a =
      let recovered = recovered-lem now s.stale_after s.db fine in
      let jobs = map (recover_row now (interval_of s.stale_after)) s.db.jobs in
      let d : Db = record s.db { jobs = jobs; calls = suc s.db.calls } in
      let (js, listed, same, short) =
        list_queued_jobs-Lists d fine
          (recover-AllReadable now (interval_of s.stale_after) s.db.jobs a) in
      rw (fresh, recovered, listed)
        (enqueue_all-queue js
            (record s { db = record d { calls = suc d.calls }; started = true; stopped = false })
            refl (rw empty (omega (arith, short)))
          ∙ rw empty same)

  pub enqueue_all-db : (js : List (Job F)) (s : System) → (enqueue_all fl env js s).db ≡ s.db
  unfolding enqueue_all
  enqueue_all-db [] s = refl
  enqueue_all-db (j ∷ js) s = elim (Bool-cases (enqueue j.id s).0) [
    | inl e ↦ rw e (enqueue_all-db js (enqueue j.id s).1 ∙ enqueue-db j.id s)
    | inr e ↦ rw e (enqueue-db j.id s)
  ]

  pub start-rows :
      (now : ℕ) (s : System) (fine : NoFault env)
      → s.started ≡ false
      → AllReadable fl env s.db.jobs
      → (start fl env now s).db.jobs ≡ map (recover_row now (interval_of s.stale_after)) s.db.jobs
  unfolding start
  start-rows now s fine fresh a =
      let recovered = recovered-lem now s.stale_after s.db fine in
      let jobs = map (recover_row now (interval_of s.stale_after)) s.db.jobs in
      let d : Db = record s.db { jobs = jobs; calls = suc s.db.calls } in
      let (js, listed, same, short) =
        list_queued_jobs-Lists d fine
          (recover-AllReadable now (interval_of s.stale_after) s.db.jobs a) in
      rw (fresh, recovered, listed)
        (ap (λ db. db.jobs)
          (enqueue_all-db js
            (record s { db = record d { calls = suc d.calls }; started = true; stopped = false })))

  -- A waiting job is taken up if there are no more than 1000.
  pub start-holds :
      (now : ℕ) (s : System) (fine : NoFault env)
      → s.started ≡ false
      → s.queue ≡ []
      → AllReadable fl env s.db.jobs
      → length (queued_rows (map (recover_row now (interval_of s.stale_after)) s.db.jobs)) ≤ 1000
      → (id : Str) → is_waiting (find_job id s.db.jobs) ≡ true
      → ((start fl env now s).queue ≡ requeued now s) × In id (start fl env now s).queue
  start-holds now s fine fresh empty a few id waits =
      let queue = start-queue now s fine fresh empty a in
      let recovered = map (recover_row now (interval_of s.stale_after)) s.db.jobs in
      let found =
        In-queued_rows id recovered
          (is_waiting-recover now (interval_of s.stale_after) id s.db.jobs waits) in
      (
        queue,
        rw queue
            (subst (λ l. In id (ids_of l)) (sym (take-all 1000 (queued_rows recovered) few)) found),
      )

  take-ids_of :
      (now interval n : ℕ) (rows : List JobRow)
      → ids_of (take n (map (recover_row now interval) rows)) ≡ take n (ids_of rows)
  take-ids_of now interval zero rows = refl
  take-ids_of now interval (suc n) [] = refl
  take-ids_of now interval (suc n) (r ∷ rows) =
      rw (id-recover_row now interval r) (ap (λ l. r.id ∷ l) (take-ids_of now interval n rows))

  -- A manager that is not started and has an empty channel, when it starts with no statement failing and the rows
  -- readable, holds the ids of the first 1000 of the jobs that wait: those that are queued and those that have
  -- been running for longer than the interval, each once and an earlier created one before a later one. The
  -- table's stale rows are recovered.
  pub start-requeues :
      (now : ℕ) (s : System) (fine : NoFault env)
      → s.started ≡ false
      → s.queue ≡ []
      → AllReadable fl env s.db.jobs
      → (oldest : List JobRow) × IsOldestFirst oldest
        × Perm oldest (rows_that (waits now (interval_of s.stale_after)) s.db.jobs)
        × ((start fl env now s).queue ≡ take 1000 (ids_of oldest))
        × ((start fl env now s).db.jobs
            ≡ map (recover_row now (interval_of s.stale_after)) s.db.jobs)
  start-requeues now s fine fresh empty a =
      let interval = interval_of s.stale_after in
      let (oldest, ordered, same, selected) = queued_rows-oldest now interval s.db.jobs in
      (
        oldest,
        ordered,
        same,
        start-queue now s fine fresh empty a
            ∙ ap (λ l. ids_of (take 1000 l)) selected
            ∙ take-ids_of now interval 1000 oldest,
        start-rows now s fine fresh a,
      )
