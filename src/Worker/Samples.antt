-- ===== src/Worker/Samples.antt =====
-- A manager with one waiting job.
use data_profiler.Prelude.{◌-◌, ◌%◌, true, false, none, some, [], ◌∷◌, lit}
use data_profiler.Prelude.Int.{pos}
use data_profiler.Prelude.Rational.{Fraction, fraction}
use data_profiler.Domain.{ProfileRequest, queued}
use data_profiler.Samples.{users}
use data_profiler.Store.Tables.{JobRow}
use data_profiler.Store.{ok, Codec, Env}
use data_profiler.Pii.{header_rules}
use data_profiler.Worker.{System, Runtime}

abbrev pub request : ProfileRequest Fraction
request = record {
  source = record { typ = lit "postgres"; dsn = lit "postgres://db" };
  schema = lit "public";
  table = lit "users";
  sample_size = pos 100;
  quality_rules = none;
}

-- A codec of one value.
abbrev only : {A : Type 0} → A → Codec A
only a = record { marshal = λ x. some (lit "{}"); unmarshal = λ b. some a }

-- The columns keep even times.
abbrev pub env : Env Fraction
env = record {
  request_codec = only request;
  profile_codec = only users;
  violation = lit "constraint";
  bad_json = lit "json";
  fault = λ n. none;
  column_time = λ t. t - t % 2;
}

abbrev pub waiting : JobRow
waiting = record {
  id = lit "a";
  status = queued;
  error = none;
  request = lit "{}";
  created_at = 1;
  started_at = none;
  finished_at = none;
  idempotency_key = some (lit "k");
}

abbrev pub manager : System
manager = record {
  db = record { jobs = waiting ∷ []; profiles = []; calls = 0 };
  queue = lit "a" ∷ [];
  workers = 4;
  stale_after = pos 1;
  started = true;
  stopped = false;
}

abbrev pub runtime : Runtime fraction
runtime = record {
  profile_source = λ r. ok users;
  header_order = header_rules;
  drift_order = λ m. m;
}
