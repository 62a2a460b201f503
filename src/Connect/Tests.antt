-- ===== src/Connect/Tests.antt =====
-- A database/sql that connects to everything, and instances of the theorems on connections.
use data_profiler.Prelude.{◌≡◌, refl, false, none, some, [], Str, lit, to_lower, str_eq}
use data_profiler.Prelude.Int.{◌≤ℤ◌}
use data_profiler.Prelude.Rational.{Fraction, fraction}
use data_profiler.Domain.{ProfileRequest}
use data_profiler.Store.Tables.{find_job}
use data_profiler.Store.{ok, err, Env}
use data_profiler.Profile.Source.{Source, no_rows}
use data_profiler.Worker.Samples.{request, env, waiting, manager, runtime}
use data_profiler.Worker.Failures.{FailsWith}
use data_profiler.Config.{Process}
use data_profiler.Config.Limits.{IsPositive}
use data_profiler.Connect.{Sql, pool_of, dialect_of, open_source}
use data_profiler.Connect.Handles.{Ends, pool_of-bounds, open_source-Ends}
use data_profiler.Connect.Jobs.{over, refusal, run-unsupported}

abbrev blank : Process
blank = record { getenv = λ k. []; parse_duration = λ v. none }

abbrev sockets : Sql Str
sockets = record { connect = λ driver dsn. ok dsn; ping = λ db. none; quoted = λ s. s }

pool_of-bounds_example :
    IsPositive (pool_of blank).max_open
    × IsPositive (pool_of blank).max_idle
    × IsPositive (pool_of blank).lifetime
    × ((pool_of blank).max_idle ≤ℤ (pool_of blank).max_open)
pool_of-bounds_example = pool_of-bounds blank

open_source-Ends_example :
    Ends sockets blank
      (to_lower (lit "MySQL"))
      (lit "root@/shop")
      (open_source sockets blank (lit "MySQL") (lit "root@/shop"))
open_source-Ends_example = open_source-Ends sockets blank (lit "MySQL") (lit "root@/shop")

abbrev oracle_request : ProfileRequest Fraction
oracle_request = record request { source = record { typ = lit "Oracle"; dsn = [] } }

abbrev oracle_env : Env Fraction
oracle_env = record env {
  request_codec = record { marshal = λ r. some (lit "{}"); unmarshal = λ b. some oracle_request };
}

-- No query of this source has an answer.
abbrev silent : Source Fraction
silent = record {
  count = λ q. err [];
  nullable_count = λ q. err [];
  nullable_float = λ q. err [];
  aggregates = λ q. err [];
  moments = λ q. err [];
  percentiles = λ q. err [];
  column_rows = λ q s t. no_rows [];
  relationship_rows = λ q s t. no_rows [];
  value_rows = λ q. no_rows [];
  bucket_rows = λ q. no_rows [];
  group_rows = λ q. no_rows [];
}

looked_up : find_job (lit "a") manager.db.jobs ≡ some waiting
unfolding find_job str_eq lit
looked_up = refl

no_dialect : dialect_of (to_lower (lit "Oracle")) ≡ none
unfolding dialect_of to_lower str_eq lit
no_dialect = refl

run-unsupported_example :
    FailsWith fraction oracle_env
      (λ n. refl)
      (over fraction sockets blank
        (λ db. silent)
        (record { events = []; done = λ n. false })
        runtime)
      (refusal fraction sockets blank
        (λ db. silent)
        (record { events = []; done = λ n. false })
        (to_lower (lit "Oracle")))
      2
      3
      4
      manager
      (lit "a")
run-unsupported_example =
    run-unsupported fraction sockets blank (λ db. silent)
      (record { events = []; done = λ n. false }) runtime oracle_env 2 3 4 (lit "a") manager waiting
      oracle_request (λ n. refl) looked_up refl no_dialect
