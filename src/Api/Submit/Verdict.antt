-- ===== src/Api/Submit/Verdict.antt =====
-- The codes with which submitExecutionHandler of services/api/src/index.ts replies to a tenant that
-- is let in, when every call is answered.
use cloud_code_execution_eng.Prelude.{
  ℕ, ◌<◌, ◌≡◌, refl, String, Bool, true, Option, none, some, Bool-cases, inl, inr, if◌then◌else◌,
}
use cloud_code_execution_eng.Effect.{ok, calm}
use cloud_code_execution_eng.Common.Jobs.{JobRequest}
use cloud_code_execution_eng.Common.Schema.{JobBody, parse_job_request, payload_fits}
use cloud_code_execution_eng.Quota.{QuotaReservation, allowed, denied, reserve_quota}
use cloud_code_execution_eng.Services.{Services, Store}
use cloud_code_execution_eng.Worker.Records.{W}
use cloud_code_execution_eng.Api.Http.{
  Response, Request, ApiConfig, PayloadSizeViolation, evaluate_payload_size_limits,
}
use cloud_code_execution_eng.Api.RateLimit.{RateLimitDecision, evaluate_submit_rate_limit}
use cloud_code_execution_eng.Api.Auth.{AuthenticatedTenant}
use cloud_code_execution_eng.Api.Submit.{payload_of}
use cloud_code_execution_eng.Api.Submit.Rollback.{submit_reserved-IsAccepted}
use cloud_code_execution_eng.Api.Submit.Handler.{with_reservation, sized, parsed, submit_as}

module _ (sv : Services) (config : ApiConfig) (is_uuid : String → Bool) (issues : String)
    (request : Request) (job_id created_at : String) (now_seconds : ℕ) (date_key : String)
    (tenant : AuthenticatedTenant) where
  by_quota : QuotaReservation → ℕ
  by_quota (allowed _ _ _) = 202
  by_quota (denied _ _ _ _) = 429

  by_burst : RateLimitDecision × sv.counters.Db → ℕ
  by_burst (d, counters) =
      if d.allowed
      then by_quota
          (reserve_quota sv.counters tenant.principal config.daily_quota_ttl_seconds date_key
            counters).0
      else 429

  by_size : Option PayloadSizeViolation → sv.counters.Db → ℕ
  by_size (some v) counters = 413
  by_size none counters = by_burst (
      evaluate_submit_rate_limit sv.counters tenant.principal.tenant_id
        config.submit_rate_limit_per_minute config.rate_limit_window_seconds now_seconds counters)

  by_schema : Option JobRequest → sv.counters.Db → ℕ
  by_schema none counters = 400
  by_schema (some r) counters =
      by_size
        (evaluate_payload_size_limits r.source_code r.stdin config.max_source_code_bytes
          config.max_stdin_bytes)
        counters

  -- 400 for a body that the schema refuses, else 413 for a text that is too long, else 429 over
  -- the limit of submissions or over a quota, else 202.
  unfoldable pub verdict : JobBody → sv.counters.Db → ℕ
  unfolding by_schema by_size by_burst by_quota
  verdict body counters = by_schema (parse_job_request body) counters

  abbrev pub RepliesWith : ℕ → W sv Response → Store sv → Type 0
  RepliesWith code m s =
      (response : Response) × ((m (calm s)).0 ≡ ok response) × (response.code ≡ code)

  -- The payload that the API builds is one that its schema accepts.
  abbrev pub BuildsPayloads : Type 0
  BuildsPayloads =
      (r : JobRequest)
      → payload_fits is_uuid
          (payload_of sv config is_uuid issues request job_id created_at tenant.principal r)
        ≡ true

  module _ (lives : 0 < config.job_ttl_seconds) (builds : BuildsPayloads) where
    with_reservation-RepliesWith :
        (r : JobRequest) (q : QuotaReservation) (s : Store sv)
        → RepliesWith
            (by_quota q)
            (with_reservation sv config is_uuid issues request job_id created_at tenant r q)
            s
    unfolding by_quota
    with_reservation-RepliesWith r (allowed _ _ date) s =
        let accepted =
          submit_reserved-IsAccepted sv config is_uuid issues request job_id created_at tenant r
            date s lives (builds r) in
        (accepted.response, accepted.answer, accepted.code)
    with_reservation-RepliesWith r (denied _ _ _ _) s = (_, refl, refl)

    sized-RepliesWith :
        (r : JobRequest) (v : Option PayloadSizeViolation) (s : Store sv)
        → RepliesWith
            (by_size v s.counters)
            (sized sv config is_uuid issues request job_id created_at now_seconds date_key tenant r
              v)
            s
    unfolding by_size by_burst
    sized-RepliesWith r (some v) s = (_, refl, refl)
    sized-RepliesWith r none s =
        let d =
          evaluate_submit_rate_limit sv.counters tenant.principal.tenant_id
            config.submit_rate_limit_per_minute config.rate_limit_window_seconds now_seconds
            s.counters in
        elim (Bool-cases d.0.allowed) [
          | inl e ↦ rw e (with_reservation-RepliesWith r _ _)
          | inr e ↦ rw e (_, refl, refl)
        ]

    parsed-RepliesWith :
        (o : Option JobRequest) (s : Store sv)
        → RepliesWith
            (by_schema o s.counters)
            (parsed sv config is_uuid issues request job_id created_at now_seconds date_key tenant
              o)
            s
    unfolding by_schema
    parsed-RepliesWith none s = (_, refl, refl)
    parsed-RepliesWith (some r) s = sized-RepliesWith r _ s

    -- If every call is answered, the time to live is positive and the payloads that the API builds
    -- are valid, a tenant that is let in gets the reply 400 for a body that the schema refuses,
    -- else 413 for a text that is too long, else 429 over the limit of submissions or over a
    -- quota, else 202.
    pub submit_as-RepliesWith :
        (body : JobBody) (s : Store sv)
        → RepliesWith
            (verdict body s.counters)
            (submit_as sv config is_uuid issues request job_id created_at now_seconds date_key
              tenant body)
            s
    unfolding verdict submit_as
    submit_as-RepliesWith body s = parsed-RepliesWith (parse_job_request body) s
