-- ===== src/Config.antt =====
-- internal/config/config.go: the settings, from the variables of the environment.
pub mod Limits
use data_profiler.Prelude.{Option, none, some, [], ◌∷◌, Str, lit, atoi, if◌then◌else◌}
use data_profiler.Prelude.Int.{ℤ, pos, ltb_ℤ, leb_ℤ}

-- `os.Getenv`, and `time.ParseDuration` with its result in nanoseconds.
pub record Process : Type 0 where
  pub getenv : Str → Str
  pub parse_duration : Str → Option ℤ

pub record Config : Type 0 where
  pub http_addr : Str
  pub profiler_database_url : Str
  pub redis_url : Str
  pub log_level : Str
  pub job_workers : ℤ
  pub job_stale_after : ℤ

-- `if v := os.Getenv(k); v != "" { return v }; return d`
abbrev pub non_empty : Str → Str → Str
non_empty [] d = d
non_empty (c ∷ v) d = c ∷ v

-- `if e != nil || v < 1 { return d }; return v`
abbrev pub at_least_one : Option ℤ → ℤ → ℤ
at_least_one none d = d
at_least_one (some v) d = if ltb_ℤ v (pos 1) then d else v

-- `if e != nil || v <= 0 { return d }; return v`
abbrev pub above_zero : Option ℤ → ℤ → ℤ
above_zero none d = d
above_zero (some v) d = if leb_ℤ v (pos 0) then d else v

module _ (process : Process) where
  open process use {getenv, parse_duration}

  unfoldable pub get : Str → Str → Str
  get k d = non_empty (getenv k) d

  unfoldable pub get_int : Str → ℤ → ℤ
  get_int k d = at_least_one (atoi (get k [])) d

  unfoldable pub get_duration : Str → ℤ → ℤ
  get_duration k d = above_zero (parse_duration (get k [])) d

  unfoldable pub load : Config
  load = record {
    http_addr = get (lit "HTTP_ADDR") (lit ":8080");
    profiler_database_url = get (lit "PROFILER_DATABASE_URL") [];
    redis_url = get (lit "REDIS_URL") [];
    log_level = get (lit "LOG_LEVEL") (lit "info");
    job_workers = get_int (lit "JOB_WORKERS") (pos 4);
    job_stale_after = get_duration (lit "JOB_STALE_AFTER") (pos 1800000000000);
  }
