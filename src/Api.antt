-- ===== src/Api.antt =====
-- internal/api/router.go: the handlers, as functions of a decoded request and the state of the process. The
-- routing of paths is chi's, and the metrics are Prometheus's.
pub mod Accepted
pub mod History
pub mod Lookup
mod Tests
use data_profiler.Prelude.{
  ℕ, ◌+◌, ◌*◌, ◌-◌, Bool, true, false, ◌||◌, ◌&&◌, Option, none, some, List, [], ◌∷◌, Str, lit,
  str_eq, trim_space, atoi, leb, if◌then◌else◌,
}
use data_profiler.Prelude.Int.{ℤ, pos, negsuc, sub_ℕ, leb_ℤ, ltb_ℤ}
use data_profiler.Prelude.Float.{Float64}
use data_profiler.Domain.{Status, QualityRules, ProfileRequest, Job, TableProfile, DriftReport}
use data_profiler.Store.{Result, ok, err, Env, get_job, get_latest_profile, get_profile_history}
use data_profiler.Worker.{System, on_db, create}

pub record SourceResponse : Type 0 where
  pub typ : Str
  pub dsn : Str

pub record ProfileRequestResponse (F : Type 0) : Type 0 where
  pub source : SourceResponse
  pub schema : Str
  pub table : Str
  pub sample_size : ℤ
  pub quality_rules : Option (QualityRules F)

pub record JobResponse (F : Type 0) : Type 0 where
  pub id : Str
  pub status : Status
  pub error : Str
  pub request : ProfileRequestResponse F
  pub created_at : ℕ
  pub started_at : Option ℕ
  pub finished_at : Option ℕ

-- What is written after the status: the text of an error, or a value as JSON.
pub data Body (F : Type 0) : Type 0 where
  text : Str → Body F
  job : JobResponse F → Body F
  profile : TableProfile F → Body F
  profiles : List (TableProfile F) → Body F
  drift : DriftReport F → Body F

abbrev pub Response : Type 0 → Type 0
Response F = ℕ × Body F

unfoldable pub sanitize_job : {F : Type 0} → Job F → JobResponse F
sanitize_job j = record {
  id = j.id;
  status = j.status;
  error = j.error;
  request = record {
    source = record { typ = j.request.source.typ; dsn = lit "[REDACTED]" };
    schema = j.request.schema;
    table = j.request.table;
    sample_size = j.request.sample_size;
    quality_rules = j.request.quality_rules;
  };
  created_at = j.created_at;
  started_at = j.started_at;
  finished_at = j.finished_at;
}

abbrev pub is_empty : Str → Bool
is_empty [] = true
is_empty (c ∷ s) = false

-- The limit of a history, or none for an answer of 400.
abbrev pub accept_limit : Option ℤ → Option ℤ
accept_limit none = none
accept_limit (some n) = if ltb_ℤ n (pos 1) || ltb_ℤ (pos 100) n then none else some n

unfoldable pub parse_limit : Str → Option ℤ
parse_limit [] = some (pos 20)
parse_limit (c ∷ raw) = accept_limit (atoi (c ∷ raw))

module _ (fl : Float64) (env : Env fl.F) where
  open fl use {F}

  abbrev pub is_incomplete : ProfileRequest F → Bool
  is_incomplete r =
      is_empty (trim_space r.source.typ)
      || (is_empty (trim_space r.source.dsn) || (is_empty r.schema || is_empty r.table))

  -- The end of a handler: an error's answer or a result's.
  abbrev pub answer :
      {A : Type 0} → (Str → Response F) → (A → Response F) → Result A × System → Response F × System
  answer failed_with found (err e, s) = (failed_with e, s)
  answer failed_with found (ok a, s) = (found a, s)

  abbrev pub missing : Str → Str → Response F
  missing m e = (404, text m)

  -- POST /profile-jobs. `body` is the decoded JSON, if it is valid.
  unfoldable pub post_job :
      Str → ℕ → ℕ → Option (ProfileRequest F) → Str → System → Response F × System
  post_job id now later none key s = ((400, text (lit "invalid JSON")), s)
  post_job id now later (some r) key s =
      if is_incomplete r
      then ((400, text (lit "source.type, source.dsn, schema and table are required")), s)
      else answer (λ e. (500, text e)) (λ j. (202, job (sanitize_job j)))
          (create fl env id now later r (trim_space key) s)

  -- GET /profile-jobs/{id}
  unfoldable pub get_job_by_id : Str → System → Response F × System
  get_job_by_id id s =
      answer (missing (lit "not found")) (λ j. (200, job (sanitize_job j)))
        (on_db fl env (get_job env id) s)

  abbrev pub history_of : Str → Str → Option ℤ → System → Response F × System
  history_of schema table none s = ((400, text (lit "limit must be between 1 and 100")), s)
  history_of schema table (some limit) s =
      answer (missing (lit "history not found")) (λ ps. (200, profiles ps))
        (on_db fl env (get_profile_history env schema table limit) s)

  -- GET /profiles/history
  unfoldable pub get_history : Str → Str → Str → System → Response F × System
  get_history schema table raw s =
      if is_empty (trim_space schema) || is_empty (trim_space table)
      then ((400, text (lit "schema and table are required")), s)
      else history_of (trim_space schema) (trim_space table) (parse_limit raw) s

  abbrev pub drift_answer : Option (DriftReport F) → Response F
  drift_answer none = (404, text (lit "drift not found"))
  drift_answer (some d) = (200, drift d)

  abbrev pub first_drift : List (TableProfile F) → Response F
  first_drift [] = (404, text (lit "drift not found"))
  first_drift (p ∷ ps) = drift_answer p.drift

  -- GET /profiles/drift
  unfoldable pub get_drift : Str → Str → System → Response F × System
  get_drift schema table s =
      if is_empty (trim_space schema) || is_empty (trim_space table)
      then ((400, text (lit "schema and table are required")), s)
      else answer (missing (lit "drift not found")) first_drift
          (on_db fl env (get_profile_history env (trim_space schema) (trim_space table) (pos 1)) s)

  -- GET /profile-jobs/{id}/result
  unfoldable pub get_result : Str → System → Response F × System
  get_result id s =
      answer (missing (lit "result not found")) (λ p. (200, profile p))
        (on_db fl env (get_latest_profile env id) s)
