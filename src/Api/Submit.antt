-- ===== src/Api/Submit.antt =====
-- services/api/src/index.ts: the job that submitExecutionHandler makes of a request whose slot is
-- reserved, with appendHistoryItem and its script; the whole handler is in Handler.antt. The job's
-- id and the time are arguments, as are the test of a UUID and the text of a schema's error. A field inside an object of the reply has its path as its name.
pub mod Rollback
pub mod Handler
pub mod Restored
pub mod Verdict
use Prim.Native.String.{◌++◌}
use mathlib.Core.List.{◌++◌ as join}
use cloud_code_execution_eng.Prelude.{
  ℕ, ◌-◌, String, Bool, true, false, Option, none, some, List, [], ◌∷◌, length, ltb, show,
  if◌then◌else◌,
}
use cloud_code_execution_eng.Effect.{
  Exec, Result, ok, err, pure, raise, remote, command, try_catch, ◌>>=◌, ◌>>◌,
}
use cloud_code_execution_eng.Common.Keys.{redis_job_key, tenant_job_history_key}
use cloud_code_execution_eng.Common.Jobs.{JobRequest, QueueJobPayload, language_name}
use cloud_code_execution_eng.Common.Schema.{JobBody, parse_job_request, payload_fits}
use cloud_code_execution_eng.Quota.{
  QuotaReservation, allowed, denied, reserve_quota, rollback_reserved_quota,
}
use cloud_code_execution_eng.Redis.Hashes.{Updates}
use cloud_code_execution_eng.Redis.Streams.{MetaValue, text, number, AuditEvent}
use cloud_code_execution_eng.Services.{Services, Store}
use cloud_code_execution_eng.Tenants.{TenantPrincipal}
use cloud_code_execution_eng.Worker.Records.{W, write_job, expire_job}
use cloud_code_execution_eng.Api.Http.{
  Response, Request, ApiConfig, append_audit_event, PayloadSizeViolation,
  evaluate_payload_size_limits,
}
use cloud_code_execution_eng.Api.RateLimit.{RateLimitDecision, evaluate_submit_rate_limit}
use cloud_code_execution_eng.Api.Auth.{
  AuthenticatedTenant, AuthType, by_api_key, by_jwt, Claims, Gate, passes, replies,
  authenticate_tenant,
}

abbrev pub auth_type_name : AuthType → String
auth_type_name by_api_key = "api_key"
auth_type_name by_jwt = "jwt"

module _ (sv : Services) (config : ApiConfig) where
  -- The script that trims the history to its newest items.
  unfoldable pub trim_history : String → ℕ → sv.sets.Db → sv.sets.Db
  trim_history key max_items db =
      if ltb max_items (length (sv.sets.members key db))
      then sv.sets.remove_lowest key (length (sv.sets.members key db) - max_items) db
      else db

  unfoldable pub append_history_item : String → String → W sv (Unit {0})
  unfolding trim_history
  append_history_item tenant_id job_id = do
    command (λ s. record s { sets = sv.sets.zadd key job_id s.sets })
    command (λ s. record s { sets = trim_history key config.job_history_max s.sets })
    command (λ s. record s { sets = sv.sets.expire key config.job_ttl_seconds s.sets })
    where
      key : String
      key = tenant_job_history_key tenant_id

  module _ (is_uuid : String → Bool) (issues : String) (request : Request)
      (job_id created_at : String) where
    abbrev pub trace : String × MetaValue
    trace = ("traceId", text request.trace_id)

    abbrev pub audit : String → String → Option String → List (String × MetaValue) → W sv (Unit {0})
    audit action tenant_id job metadata = append_audit_event sv config.audit_stream_key (record {
      actor = "api";
      action = action;
      tenant_id = some tenant_id;
      job_id = job;
      metadata = metadata;
    })

    abbrev pub reply : ℕ → Updates → List (String × MetaValue) → W sv Response
    reply code headers body = pure (record { code = code; headers = headers; body = body })

    abbrev pub payload_of : TenantPrincipal → JobRequest → QueueJobPayload
    payload_of tenant r = record {
      job_id = job_id;
      tenant_id = tenant.tenant_id;
      api_key_fingerprint = tenant.api_key_fingerprint;
      trace_id = some request.trace_id;
      request = r;
      created_at = created_at;
    }

    abbrev pub queued_updates : QueueJobPayload → Updates
    queued_updates p =
        ("jobId", job_id)
        ∷ ("tenantId", p.tenant_id)
        ∷ ("traceId", request.trace_id)
        ∷ ("status", "queued")
        ∷ ("language", language_name p.request.language)
        ∷ ("sourceCode", p.request.source_code)
        ∷ ("stdin", p.request.stdin)
        ∷ ("timeoutMs", show p.request.timeout_ms)
        ∷ ("memoryMb", show p.request.memory_mb)
        ∷ ("cpuMillicores", show p.request.cpu_millicores)
        ∷ ("maxAttempts", show config.queue_job_attempts)
        ∷ ("attemptsMade", "0")
        ∷ ("currentAttempt", "1")
        ∷ ("createdAt", created_at)
        ∷ ("updatedAt", created_at)
        ∷ []

    abbrev pub add_job : QueueJobPayload → Store sv → Store sv
    add_job p s = record s { queue = sv.queue.add job_id p s.queue }

    abbrev pub parse_payload : QueueJobPayload → W sv QueueJobPayload
    parse_payload p = if payload_fits is_uuid p then pure p else raise issues

    -- The body of the `try`.
    unfoldable pub enqueue : TenantPrincipal → JobRequest → W sv QueueJobPayload
    enqueue tenant r = do
      p ← parse_payload (payload_of tenant r)
      command (write_job sv job_id (queued_updates p))
      command (expire_job sv job_id config.job_ttl_seconds)
      append_history_item p.tenant_id job_id
      command (add_job p)
      pure p

    -- The body of the `catch`.
    unfoldable pub undo : TenantPrincipal → String → String → W sv Response
    undo tenant date_key message = do
      command (λ s. record s {
        counters = rollback_reserved_quota sv.counters tenant.tenant_id date_key s.counters;
      })
      command (λ s. record s { hashes = sv.hashes.del (redis_job_key job_id) s.hashes })
      command (λ s. record s {
        sets = sv.sets.zrem (tenant_job_history_key tenant.tenant_id) job_id s.sets;
      })
      audit "job_submission_failed" tenant.tenant_id (some job_id)
          (("error", text message) ∷ trace ∷ [])
      reply 503 [] (("error", text "submission_unavailable") ∷ trace ∷ [])

    unfoldable pub accept : AuthenticatedTenant → QueueJobPayload → W sv Response
    accept tenant p = do
      audit "job_submitted" tenant.principal.tenant_id (some job_id) (
          ("authType", text (auth_type_name tenant.auth_type))
          ∷ ("subject", text tenant.subject)
          ∷ ("language", text (language_name p.request.language))
          ∷ ("timeoutMs", number p.request.timeout_ms)
          ∷ ("memoryMb", number p.request.memory_mb)
          ∷ ("cpuMillicores", number p.request.cpu_millicores)
          ∷ ("maxAttempts", number config.queue_job_attempts)
          ∷ trace
          ∷ [])
      reply 202 [] (
          ("jobId", text job_id)
          ∷ ("executionId", text job_id)
          ∷ trace
          ∷ ("status", text "queued")
          ∷ ("statusUrl", text ("/v1/jobs/" ++ job_id))
          ∷ ("executionUrl", text ("/executions/" ++ job_id))
          ∷ [])

    abbrev pub answered : AuthenticatedTenant → Gate QueueJobPayload → W sv Response
    answered tenant (passes p _) = accept tenant p
    answered tenant (replies r) = pure r

    -- From the reservation to the reply.
    unfoldable pub submit_reserved : AuthenticatedTenant → JobRequest → String → W sv Response
    submit_reserved tenant r date_key = do
      g ←
          try_catch (enqueue tenant.principal r >>= λ p. pure (passes p []))
            (λ message. undo tenant.principal date_key message >>= λ a. pure (replies a))
      answered tenant g
