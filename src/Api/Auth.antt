-- ===== src/Api/Auth.antt =====
-- services/api/src/index.ts: resolveApiKeyPrincipal, resolveJwtPrincipal, authenticateTenant and
-- requireAdmin. `jwtVerify` is a parameter: the two claims of a token that verifies, as
-- readStringClaim reads them. The identity of a fingerprint is hashed outside.
pub mod Doors
pub mod Admins
use Prim.Native.String.{◌++◌}
use mathlib.Core.List.{◌++◌ as join}
use cloud_code_execution_eng.Prelude.{
  ℕ, String, Bool, true, false, not, Option, none, some, List, [], ◌∷◌, show, ◌==◌, ◌===◌,
  if◌then◌else◌,
}
use cloud_code_execution_eng.Effect.{Exec, pure, remote, ◌>>=◌, ◌>>◌}
use cloud_code_execution_eng.Redis.Hashes.{Updates}
use cloud_code_execution_eng.Redis.Streams.{MetaValue, text, number, AuditEvent}
use cloud_code_execution_eng.Services.{Services, Store}
use cloud_code_execution_eng.Tenants.{TenantPolicy, TenantPrincipal}
use cloud_code_execution_eng.Worker.Records.{W}
use cloud_code_execution_eng.Api.Http.{
  Response, Request, AuthMode, api_key, jwt, hybrid, ApiConfig, append_audit_event,
}
use cloud_code_execution_eng.Api.RateLimit.{
  RateLimitDecision, set_rate_limit_headers, evaluate_rate_limit,
}

pub data AuthType : Type 0 where
  by_api_key by_jwt : AuthType

pub record AuthenticatedTenant : Type 0 where
  pub principal : TenantPrincipal
  pub auth_type : AuthType
  pub subject : String

pub record Claims : Type 0 where
  pub tenant_claim : Option String
  pub subject_claim : Option String

pub data PrincipalResolution : Type 0 where
  resolved : AuthenticatedTenant → PrincipalResolution
  refused : (reason : String) (status_code : ℕ) → PrincipalResolution

-- A handler goes on with a value and the headers that are set, or has replied.
pub data Gate (A : Type 0) : Type 0 where
  passes : A → Updates → Gate A
  replies : Response → Gate A

abbrev pub registered : Option TenantPrincipal → PrincipalResolution
registered none = refused "invalid_api_key" 401
registered (some tenant) =
    resolved
      (record { principal = tenant; auth_type = by_api_key; subject = tenant.api_key_fingerprint })

module _ (config : ApiConfig) (verify : String → Option Claims)
    (fingerprint : String → String) where
  unfoldable pub resolve_api_key_principal : Option String → PrincipalResolution
  resolve_api_key_principal none = refused "missing_api_key" 401
  resolve_api_key_principal (some key) = registered (config.tenant_registry key)

  abbrev pub with_policy : String → String → Option TenantPolicy → PrincipalResolution
  with_policy tenant_id subject none = refused "unknown_tenant_policy" 403
  with_policy tenant_id subject (some policy) = resolved (record {
    principal = record {
      policy = record {
        tenant_id = tenant_id;
        max_concurrent_jobs = policy.max_concurrent_jobs;
        max_daily_jobs = policy.max_daily_jobs;
      };
      api_key_fingerprint = fingerprint ("jwt:" ++ (tenant_id ++ (":" ++ subject)));
    };
    auth_type = by_jwt;
    subject = subject;
  })

  abbrev pub with_claims : Option String → Option String → PrincipalResolution
  with_claims none _ = refused "missing_jwt_tenant_claim" 401
  with_claims (some tenant_id) none = refused "missing_jwt_subject_claim" 401
  with_claims (some tenant_id) (some subject) =
      with_policy tenant_id subject (config.tenant_policy_registry tenant_id)

  abbrev pub with_payload : Option Claims → PrincipalResolution
  with_payload none = refused "invalid_jwt" 401
  with_payload (some claims) = with_claims claims.tenant_claim claims.subject_claim

  unfoldable pub resolve_jwt_principal : Option String → PrincipalResolution
  resolve_jwt_principal none = refused "missing_bearer_token" 401
  resolve_jwt_principal (some token) =
      if not config.jwt_configured
      then refused "jwt_not_configured" 401
      else with_payload (verify token)

  abbrev pub resolve_hybrid : Option String → Option String → PrincipalResolution
  resolve_hybrid none key = resolve_api_key_principal key
  resolve_hybrid (some token) key = resolve_jwt_principal (some token)

  abbrev pub resolve_in : AuthMode → Request → PrincipalResolution
  resolve_in api_key request = resolve_api_key_principal request.api_key
  resolve_in jwt request = resolve_jwt_principal request.bearer_token
  resolve_in hybrid request = resolve_hybrid request.bearer_token request.api_key

  module _ (sv : Services) (request : Request) where
    abbrev route : List (String × MetaValue)
    route = ("method", text request.method) ∷ ("path", text request.path) ∷ []

    abbrev limit_fields : RateLimitDecision → List (String × MetaValue)
    limit_fields d =
        ("limit", number d.limit)
        ∷ ("used", number d.used)
        ∷ ("retryAfterSeconds", number d.retry_after_seconds)
        ∷ []

    abbrev pub deny : String → ℕ → W sv (Gate AuthenticatedTenant)
    deny reason status_code = do
      append_audit_event sv config.audit_stream_key (record {
        actor = "api";
        action = "auth_failed";
        tenant_id = none;
        job_id = none;
        metadata =
            ("reason", text reason)
            ∷ ("path", text request.path)
            ∷ ("method", text request.method)
            ∷ ("traceId", text request.trace_id)
            ∷ [];
      })
      pure (
          replies (record {
            code = status_code;
            headers = [];
            body =
                ("error", text (if status_code == 403 then "forbidden" else "unauthorized"))
                ∷ ("reason", text reason)
                ∷ ("traceId", text request.trace_id)
                ∷ [];
          }))

    abbrev pub count_request : String → ℕ → W sv RateLimitDecision
    count_request tenant_id now_seconds = remote λ s.
        let r =
          evaluate_rate_limit sv.counters tenant_id config.rate_limit_requests_per_minute
            config.rate_limit_window_seconds now_seconds s.counters in
        (r.0, record s { counters = r.1 })

    abbrev pub slow_down : String → RateLimitDecision → W sv (Gate AuthenticatedTenant)
    slow_down tenant_id d = do
      append_audit_event sv config.audit_stream_key (record {
        actor = "api";
        action = "rate_limited";
        tenant_id = some tenant_id;
        job_id = none;
        metadata = join route (join (limit_fields d) (("traceId", text request.trace_id) ∷ []));
      })
      pure (
          replies (record {
            code = 429;
            headers =
                join (set_rate_limit_headers d) (("retry-after", show d.retry_after_seconds) ∷ []);
            body =
                ("error", text "rate_limited")
                ∷ ("traceId", text request.trace_id)
                ∷ join (limit_fields d) (("windowSeconds", number d.window_seconds) ∷ []);
          }))

    abbrev pub admit_tenant : ℕ → PrincipalResolution → W sv (Gate AuthenticatedTenant)
    admit_tenant now_seconds (refused reason status_code) = deny reason status_code
    admit_tenant now_seconds (resolved tenant) = do
      d ← count_request tenant.principal.tenant_id now_seconds
      if d.allowed
          then pure (passes tenant (set_rate_limit_headers d))
          else slow_down tenant.principal.tenant_id d

    unfoldable pub authenticate_tenant : ℕ → W sv (Gate AuthenticatedTenant)
    authenticate_tenant now_seconds = admit_tenant now_seconds (resolve_in config.auth_mode request)

    abbrev pub admin_denied : String → String → ℕ → W sv (Gate (String × TenantPrincipal))
    admin_denied action error code = do
      append_audit_event sv config.audit_stream_key (record {
        actor = "api";
        action = action;
        tenant_id = some "unknown";
        job_id = none;
        metadata = ("path", text request.path) ∷ ("traceId", text request.trace_id) ∷ [];
      })
      pure (
          replies (record {
            code = code;
            headers = [];
            body = ("error", text error) ∷ ("traceId", text request.trace_id) ∷ [];
          }))

    abbrev pub mapped : String → Option TenantPrincipal → W sv (Gate (String × TenantPrincipal))
    mapped key none = pure (
        replies (record {
          code = 403;
          headers = [];
          body = ("error", text "admin_key_not_mapped") ∷ ("traceId", text request.trace_id) ∷ [];
        }))
    mapped key (some tenant) = pure (passes (key, tenant) [])

    abbrev pub require_admin_key : Option String → W sv (Gate (String × TenantPrincipal))
    require_admin_key none = admin_denied "admin_auth_missing" "admin_auth_missing" 401
    require_admin_key (some key) =
        if not (config.is_admin_key key)
        then admin_denied "admin_auth_denied" "admin_forbidden" 403
        else mapped key (config.tenant_registry key)

    unfoldable pub require_admin : W sv (Gate (String × TenantPrincipal))
    require_admin = require_admin_key request.api_key
