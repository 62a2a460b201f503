-- ===== src/Worker/Transfers.antt =====
-- The methods of the manager that leave the channel alone, and what they do to the rows.
use data_profiler.Prelude.{ℕ, ◌≡◌, refl, ◌∙◌, Str}
use data_profiler.Prelude.Float.{Float64}
use data_profiler.Domain.{Status, queued, running, completed, failed, Job, TableProfile}
use data_profiler.Store.{
  Result, ok, err, Env, Db, get_job, update_job, save_profile, get_previous_profile,
}
use data_profiler.Store.Keeps.{
  Keeps, update_job-Keeps, get_job-Keeps, get_previous_profile-Keeps, save_profile-Keeps,
}
use data_profiler.Worker.{
  System, Runtime, branch, on_db, fail_if_queued, fail_queued_job, judge, save_profiled,
  profile_and_save, settle, run,
}

pub record KeepsQueue (s s' : System) : Type 0 where
  pub queue : s'.queue ≡ s.queue
  pub rows : Keeps s.db s'.db

pub KeepsQueue-refl : (s : System) → KeepsQueue s s
KeepsQueue-refl s = record {
  queue = refl;
  rows = record { unique = λ u. u; ids = λ id h. h; entries = λ e h. h };
}

pub KeepsQueue-trans : {s t u : System} → KeepsQueue s t → KeepsQueue t u → KeepsQueue s u
KeepsQueue-trans h k = record {
  queue = k.queue ∙ h.queue;
  rows = record {
    unique = λ u. k.rows.unique (h.rows.unique u);
    ids = λ id i. k.rows.ids id (h.rows.ids id i);
    entries = λ e i. k.rows.entries e (h.rows.entries e i);
  };
}

-- Two branches that keep the channel.
branch-KeepsQueue :
    {A : Type 0} (r : Result A × System) (f : Str → System → System) (g : A → System → System)
    → ((e : Str) → KeepsQueue r.1 (f e r.1))
    → ((a : A) → KeepsQueue r.1 (g a r.1))
    → KeepsQueue r.1 (branch r f g)
branch-KeepsQueue (err e, s) f g hf hg = hf e
branch-KeepsQueue (ok a, s) f g hf hg = hg a

module _ (fl : Float64) (env : Env fl.F) where
  open fl use {F}

  pub on_db-KeepsQueue :
      {A : Type 0} (op : Db → Result A × Db) (s : System)
      → Keeps s.db (op s.db).1
      → KeepsQueue s (on_db fl env op s).1
  on_db-KeepsQueue op s h = record { queue = refl; rows = h }

  fail_if_queued-KeepsQueue :
      (now : ℕ) (j : Job F) (status : Status) (s : System)
      → KeepsQueue s (fail_if_queued fl env now j status s)
  unfolding fail_if_queued
  fail_if_queued-KeepsQueue now j queued s =
      on_db-KeepsQueue (update_job env _) s (update_job-Keeps env _ s.db)
  fail_if_queued-KeepsQueue now j running s = KeepsQueue-refl s
  fail_if_queued-KeepsQueue now j completed s = KeepsQueue-refl s
  fail_if_queued-KeepsQueue now j failed s = KeepsQueue-refl s

  pub fail_queued_job-KeepsQueue :
      (now : ℕ) (id : Str) (s : System) → KeepsQueue s (fail_queued_job fl env now id s)
  unfolding fail_queued_job
  fail_queued_job-KeepsQueue now id s =
      KeepsQueue-trans (on_db-KeepsQueue (get_job env id) s (get_job-Keeps env id s.db)) (
        branch-KeepsQueue (on_db fl env (get_job env id) s) _ _ (λ e. KeepsQueue-refl _)
          (λ j. fail_if_queued-KeepsQueue now j j.status _))

  module _ (rt : Runtime fl) where
    save_profiled-KeepsQueue :
        (j : Job F) (now : ℕ) (p : Result (TableProfile F)) (s : System)
        → KeepsQueue s (save_profiled fl env rt j now p s).1
    unfolding save_profiled
    save_profiled-KeepsQueue j now (err e) s = KeepsQueue-refl s
    save_profiled-KeepsQueue j now (ok p) s =
        let q = judge fl env rt j now p in
        KeepsQueue-trans
          (on_db-KeepsQueue (get_previous_profile env q.schema q.table) s
            (get_previous_profile-Keeps env q.schema q.table s.db))
          (on_db-KeepsQueue (save_profile env j.id _) _ (save_profile-Keeps env j.id _ _))

    settle-KeepsQueue :
        (j : Job F) (ended : ℕ) (r : Result (Unit {0}) × System)
        → KeepsQueue r.1 (settle fl env rt j ended r)
    settle-KeepsQueue j ended (r, s) =
        on_db-KeepsQueue (update_job env _) s (update_job-Keeps env _ s.db)

    pub run-KeepsQueue :
        (started judged ended : ℕ) (id : Str) (s : System)
        → KeepsQueue s (run fl env rt started judged ended id s)
    unfolding run profile_and_save
    run-KeepsQueue started judged ended id s =
        KeepsQueue-trans (on_db-KeepsQueue (get_job env id) s (get_job-Keeps env id s.db)) (
          branch-KeepsQueue (on_db fl env (get_job env id) s) _ _ (λ e. KeepsQueue-refl _)
            (λ j.
              KeepsQueue-trans (on_db-KeepsQueue (update_job env _) _ (update_job-Keeps env _ _)) (
                branch-KeepsQueue (on_db fl env (update_job env _) _) _ _ (λ e. KeepsQueue-refl _)
                  (λ u.
                    KeepsQueue-trans (save_profiled-KeepsQueue _ judged _ _)
                      (settle-KeepsQueue _ ended _)))))
