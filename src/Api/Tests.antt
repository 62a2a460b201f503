-- ===== src/Api/Tests.antt =====
-- Runs of the handlers' helpers, and instances of the theorems on handlers.
use data_profiler.Prelude.{
  ◌-◌, ◌%◌, ◌≡◌, refl, true, false, none, some, [], ◌∷◌, arith, trim_space, lit, str_eq, atoi,
  digits_value,
}
use data_profiler.Prelude.Int.{pos, negsuc}
use data_profiler.Prelude.Rational.{Fraction, fraction}
use data_profiler.Domain.{queued, running, ProfileRequest, Job, TableProfile}
use data_profiler.Store.Calls.{as_stored}
use data_profiler.Store.Tables.{find_job, find_key, has_job}
use data_profiler.Samples.{users}
use data_profiler.Store.{ok, Env, Codec, save_profile}
use data_profiler.Worker.{System, on_db}
use data_profiler.Api.Accepted.{IsSound, post_job-IsSound}
use data_profiler.Api.History.{IsHistory, get_history-IsHistory}
use data_profiler.Api.Lookup.{post_job-get_job_by_id, get_result-save_profile}
use data_profiler.Api.{
  parse_limit, is_incomplete, job, profile, sanitize_job, post_job, get_job_by_id, get_history,
  get_result,
}

abbrev request : ProfileRequest Fraction
request = record {
  source = record { typ = lit "mysql"; dsn = lit "user:pw@tcp(db)/" };
  schema = lit "public";
  table = lit "users";
  sample_size = pos 100;
  quality_rules = none;
}

abbrev codec : {A : Type 0} → A → Codec A
codec a = record { marshal = λ x. some (lit "{}"); unmarshal = λ b. some a }

abbrev env : Env Fraction
env = record {
  request_codec = codec request;
  profile_codec = codec users;
  violation = lit "constraint";
  bad_json = lit "json";
  fault = λ n. none;
  column_time = λ t. t - t % 2;
}

abbrev fresh : System
fresh = record {
  db = record { jobs = []; profiles = []; calls = 0 };
  queue = [];
  workers = 4;
  stale_after = pos 1;
  started = true;
  stopped = false;
}

limit_tests :
    (parse_limit [] ≡ some (pos 20))
    × (parse_limit (lit "100") ≡ some (pos 100))
    × (parse_limit (lit "+7") ≡ some (pos 7))
    × (parse_limit (lit "101") ≡ none)
    × (parse_limit (lit "0") ≡ none)
    × (parse_limit (lit "-5") ≡ none)
    × (parse_limit (lit "1e1") ≡ none)
    × (atoi (lit "-12") ≡ some (negsuc 11))
    × (atoi (lit "9223372036854775808") ≡ none)
unfolding parse_limit atoi digits_value lit str_eq
limit_tests = (refl, refl, refl, refl, refl, refl, refl, refl, refl)

post_job-IsSound_example :
    IsSound fraction env (post_job fraction env (lit "a") 1 2 (some request) (lit " k ") fresh)
post_job-IsSound_example =
    post_job-IsSound fraction env (lit "a") 1 2 (some request) (lit " k ") fresh

get_history-IsHistory_example :
    IsHistory fraction env
      (lit "5")
      fresh
      (get_history fraction env (lit "public") (lit "users") (lit "5") fresh)
get_history-IsHistory_example =
    get_history-IsHistory fraction env (lit "public") (lit "users") (lit "5") fresh

nothing_there :
    (find_job (lit "a") fresh.db.jobs ≡ none)
    × (find_key (trim_space (lit " k ")) fresh.db.jobs ≡ none)
unfolding find_job find_key
nothing_there = (refl, refl)

complete : is_incomplete fraction env request ≡ false
unfolding trim_space lit
complete = refl

post_job-get_job_by_id_example :
    (after : System) × (j : Job Fraction) × (post_job fraction env
        (lit "a")
        1
        2
        (some request)
        (lit " k ")
        fresh
      ≡ ((202, job (sanitize_job j)), after))
    × (j.id ≡ lit "a")
    × (j.status ≡ queued)
    × ((get_job_by_id fraction env (lit "a") after).0 ≡ (200, job (sanitize_job (as_stored env j))))
    × ((get_job_by_id fraction env (lit "a") after).1.db.jobs ≡ after.db.jobs)
post_job-get_job_by_id_example =
    post_job-get_job_by_id fraction env (λ n. refl) (lit "a") (lit " k ") (lit "{}") 1 2 request
      fresh complete refl refl refl (omega arith) nothing_there.0 nothing_there.1

-- The table has the job, and a profile of an hour ago.
abbrev profiled : System
profiled = record fresh {
  db = record fresh.db {
    jobs =
        record {
          id = lit "a";
          status = running;
          error = none;
          request = lit "{}";
          created_at = 1;
          started_at = some 2;
          finished_at = none;
          idempotency_key = none;
        }
        ∷ [];
    profiles =
        record {
          job_id = lit "a";
          schema_name = lit "public";
          table_name = lit "users";
          payload = lit "{}";
          created_at = 1;
        }
        ∷ [];
  };
}

abbrev later_users : TableProfile Fraction
later_users = record users { created_at = 9 }

abbrev later_env : Env Fraction
later_env = record env { profile_codec = codec later_users }

has_one : has_job (lit "a") profiled.db.jobs ≡ true
unfolding has_job find_job str_eq lit
has_one = refl

get_result-save_profile_example :
    ((on_db fraction later_env (save_profile later_env (lit "a") later_users) profiled).0 ≡ ok tt)
    × ((get_result fraction later_env
          (lit "a")
          (on_db fraction later_env (save_profile later_env (lit "a") later_users) profiled).1).0
        ≡ (200, profile later_users))
get_result-save_profile_example =
    get_result-save_profile fraction later_env (λ n. refl) (lit "a") (lit "{}") later_users profiled
      refl refl has_one (ground arith, tt)
