-- ===== src/Api/Submit/Handler.antt =====
-- services/api/src/index.ts: submitExecutionHandler as a whole: its refusals before the
-- reservation, and their order. The issues that the schema reports are left out of a reply.
use mathlib.Core.List.{◌++◌ as join}
use cloud_code_execution_eng.Prelude.{
  ℕ, String, Bool, Option, none, some, List, [], ◌∷◌, show, if◌then◌else◌,
}
use cloud_code_execution_eng.Effect.{pure, remote, ◌>>=◌, ◌>>◌}
use cloud_code_execution_eng.Common.Jobs.{JobRequest}
use cloud_code_execution_eng.Common.Schema.{JobBody, parse_job_request}
use cloud_code_execution_eng.Quota.{QuotaReservation, allowed, denied, reserve_quota}
use cloud_code_execution_eng.Redis.Hashes.{Updates}
use cloud_code_execution_eng.Redis.Streams.{MetaValue, text, number}
use cloud_code_execution_eng.Services.{Services}
use cloud_code_execution_eng.Tenants.{TenantPrincipal}
use cloud_code_execution_eng.Worker.Records.{W}
use cloud_code_execution_eng.Api.Http.{
  Response, Request, ApiConfig, PayloadSizeViolation, evaluate_payload_size_limits,
}
use cloud_code_execution_eng.Api.RateLimit.{RateLimitDecision, evaluate_submit_rate_limit}
use cloud_code_execution_eng.Api.Auth.{
  AuthenticatedTenant, Claims, Gate, passes, replies, authenticate_tenant,
}
use cloud_code_execution_eng.Api.Submit.{trace, audit, reply, submit_reserved}

module _ (sv : Services) (config : ApiConfig) (is_uuid : String → Bool) (issues : String)
    (request : Request) (job_id created_at : String) where
  abbrev trace_field : String × MetaValue
  trace_field = trace sv config is_uuid issues request job_id created_at

  abbrev note : String → String → Option String → List (String × MetaValue) → W sv (Unit {0})
  note = audit sv config is_uuid issues request job_id created_at

  abbrev answer : ℕ → Updates → List (String × MetaValue) → W sv Response
  answer = reply sv config is_uuid issues request job_id created_at

  abbrev pub refuse_quota : AuthenticatedTenant → String → ℕ → ℕ → W sv Response
  refuse_quota tenant reason active_jobs daily_jobs = do
    note "submission_rejected_quota" tenant.principal.tenant_id none (
        ("reason", text reason)
        ∷ ("activeJobs", number active_jobs)
        ∷ ("dailyJobs", number daily_jobs)
        ∷ trace_field
        ∷ [])
    answer 429 [] (
        ("error", text "quota_exceeded")
        ∷ trace_field
        ∷ ("reason", text reason)
        ∷ ("limits.maxConcurrentJobs", number tenant.principal.max_concurrent_jobs)
        ∷ ("limits.maxDailyJobs", number tenant.principal.max_daily_jobs)
        ∷ ("usage.activeJobs", number active_jobs)
        ∷ ("usage.dailyJobs", number daily_jobs)
        ∷ [])

  abbrev pub with_reservation : AuthenticatedTenant → JobRequest → QuotaReservation → W sv Response
  with_reservation tenant r (allowed _ _ date_key) =
      submit_reserved sv config is_uuid issues request job_id created_at tenant r date_key
  with_reservation tenant r (denied reason active_jobs daily_jobs _) =
      refuse_quota tenant reason active_jobs daily_jobs

  abbrev pub reserve : TenantPrincipal → String → W sv QuotaReservation
  reserve tenant date_key = remote λ s.
      let q = reserve_quota sv.counters tenant config.daily_quota_ttl_seconds date_key s.counters in
      (q.0, record s { counters = q.1 })

  abbrev pub refuse_burst : AuthenticatedTenant → RateLimitDecision → W sv Response
  refuse_burst tenant d = do
    note "submission_rejected_burst" tenant.principal.tenant_id none (
        ("method", text request.method)
        ∷ ("path", text request.path)
        ∷ ("limit", number d.limit)
        ∷ ("used", number d.used)
        ∷ ("retryAfterSeconds", number d.retry_after_seconds)
        ∷ trace_field
        ∷ [])
    answer 429 (("retry-after", show d.retry_after_seconds) ∷ []) (
        ("error", text "submit_rate_limited")
        ∷ trace_field
        ∷ ("limit", number d.limit)
        ∷ ("used", number d.used)
        ∷ ("retryAfterSeconds", number d.retry_after_seconds)
        ∷ ("windowSeconds", number d.window_seconds)
        ∷ [])

  abbrev pub count_submission : String → ℕ → W sv RateLimitDecision
  count_submission tenant_id now_seconds = remote λ s.
      let q =
        evaluate_submit_rate_limit sv.counters tenant_id config.submit_rate_limit_per_minute
          config.rate_limit_window_seconds now_seconds s.counters in
      (q.0, record s { counters = q.1 })

  abbrev pub refuse_size : AuthenticatedTenant → PayloadSizeViolation → W sv Response
  refuse_size tenant v = do
    note "submission_rejected_size" tenant.principal.tenant_id none (
        ("field", text v.field)
        ∷ ("bytes", number v.bytes)
        ∷ ("maxBytes", number v.max_bytes)
        ∷ trace_field
        ∷ [])
    answer 413 [] (
        ("error", text "payload_too_large")
        ∷ trace_field
        ∷ ("reason", text "request_size_exceeded")
        ∷ ("field", text v.field)
        ∷ ("bytes", number v.bytes)
        ∷ ("maxBytes", number v.max_bytes)
        ∷ [])

  module _ (now_seconds : ℕ) (date_key : String) (tenant : AuthenticatedTenant) where
    abbrev pub within_burst : JobRequest → RateLimitDecision → W sv Response
    within_burst r d =
        if d.allowed
        then reserve tenant.principal date_key >>= with_reservation tenant r
        else refuse_burst tenant d

    abbrev pub sized : JobRequest → Option PayloadSizeViolation → W sv Response
    sized r (some v) = refuse_size tenant v
    sized r none = count_submission tenant.principal.tenant_id now_seconds >>= within_burst r

    abbrev pub parsed : Option JobRequest → W sv Response
    parsed none = answer 400 [] (("error", text "validation_error") ∷ trace_field ∷ [])
    parsed (some r) = sized r (
        evaluate_payload_size_limits r.source_code r.stdin config.max_source_code_bytes
          config.max_stdin_bytes)

    -- The handler once the tenant is known.
    unfoldable pub submit_as : JobBody → W sv Response
    submit_as body = parsed (parse_job_request body)

  abbrev pub admitted : ℕ → String → JobBody → Gate AuthenticatedTenant → W sv Response
  admitted now_seconds date_key body (replies r) = pure r
  admitted now_seconds date_key body (passes tenant headers) =
      submit_as now_seconds date_key tenant body >>= λ r.
      answer r.code (join headers r.headers) r.body

  unfoldable pub submit_execution_handler :
      (String → Option Claims) → (String → String) → ℕ → String → JobBody → W sv Response
  submit_execution_handler verify fingerprint now_seconds date_key body =
      authenticate_tenant config verify fingerprint sv request now_seconds
      >>= admitted now_seconds date_key body
