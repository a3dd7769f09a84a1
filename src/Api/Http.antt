-- ===== src/Api/Http.antt =====
-- services/api/src/index.ts: requests, replies and the configuration, as the handlers use them; and
-- services/api/src/audit.ts and services/api/src/request-guards.ts.
use cloud_code_execution_eng.Prelude.{
  ℕ, ◌≤◌, ◌<◌, ◌≡◌, ◌↔◌, String, Bool, Option, none, some, List, len, ltb, if◌then◌else◌, arith,
}
use cloud_code_execution_eng.Effect.{command}
use cloud_code_execution_eng.Redis.Hashes.{Updates}
use cloud_code_execution_eng.Redis.Streams.{MetaValue, AuditEvent}
use cloud_code_execution_eng.Services.{Services, Store}
use cloud_code_execution_eng.Tenants.{TenantPolicy, TenantPrincipal}
use cloud_code_execution_eng.Worker.Records.{W}

-- A field inside an object of the body has its path as its name.
pub record Response : Type 0 where
  pub code : ℕ
  pub headers : Updates
  pub body : List (String × MetaValue)

-- The headers are normalized: a text that is not empty, or none.
pub record Request : Type 0 where
  pub api_key : Option String
  pub bearer_token : Option String
  pub method : String
  pub path : String
  pub trace_id : String

pub data AuthMode : Type 0 where
  api_key jwt hybrid : AuthMode

pub record ApiConfig : Type 0 where
  pub auth_mode : AuthMode
  pub tenant_registry : String → Option TenantPrincipal
  pub tenant_policy_registry : String → Option TenantPolicy
  pub is_admin_key : String → Bool
  pub jwt_configured : Bool
  pub audit_stream_key : String
  pub max_source_code_bytes : ℕ
  pub max_stdin_bytes : ℕ
  pub rate_limit_window_seconds : ℕ
  pub rate_limit_requests_per_minute : ℕ
  pub submit_rate_limit_per_minute : ℕ
  pub daily_quota_ttl_seconds : ℕ
  pub job_ttl_seconds : ℕ
  pub job_history_max : ℕ
  pub queue_job_attempts : ℕ

module _ (sv : Services) where
  abbrev pub add_event : String → AuditEvent → Store sv → Store sv
  add_event stream_key event s = record s { streams = sv.streams.xadd stream_key event s.streams }

  abbrev pub append_audit_event : String → AuditEvent → W sv (Unit {0})
  append_audit_event stream_key event = command (add_event stream_key event)

pub record PayloadSizeViolation : Type 0 where
  pub field : String
  pub bytes : ℕ
  pub max_bytes : ℕ

unfoldable pub evaluate_payload_size_limits : String → String → ℕ → ℕ → Option PayloadSizeViolation
evaluate_payload_size_limits source_code stdin max_source_code_bytes max_stdin_bytes =
    if ltb max_source_code_bytes (len source_code)
    then some (record {
      field = "sourceCode";
      bytes = len source_code;
      max_bytes = max_source_code_bytes;
    })
    else if ltb max_stdin_bytes (len stdin)
    then some (record { field = "stdin"; bytes = len stdin; max_bytes = max_stdin_bytes })
    else none

-- No violation is found exactly when both texts are within their limits, and a reported violation
-- exceeds the limit reported with it.
pub evaluate_payload_size_limits_correct :
    (source_code stdin : String) (max_source_code_bytes max_stdin_bytes : ℕ)
    → ((evaluate_payload_size_limits source_code stdin max_source_code_bytes max_stdin_bytes ≡ none)
        ↔ ((len source_code ≤ max_source_code_bytes) × (len stdin ≤ max_stdin_bytes)))
      × ((v : PayloadSizeViolation)
          → evaluate_payload_size_limits source_code stdin max_source_code_bytes max_stdin_bytes
            ≡ some v
          → v.max_bytes < v.bytes)
unfolding evaluate_payload_size_limits
evaluate_payload_size_limits_correct s i m n = (ground arith, λ v h. ground arith)
