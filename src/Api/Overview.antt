-- ===== src/Api/Overview.antt =====
-- services/api/src/index.ts: app.get("/v1/quotas") and app.get("/v1/costs"), for a tenant that is let
-- in. `utcDateKey` is a parameter: the day so many days ago. A cost that Redis keeps is a number
-- here, where the code parses its text.
pub mod Billed
use cloud_code_execution_eng.Prelude.{
  ℕ, zero, suc, ◌+◌, ◌≡◌, String, Option, none, some, List, [], ◌∷◌, map, or_else,
}
use cloud_code_execution_eng.Effect.{pure, remote}
use cloud_code_execution_eng.Common.Keys.{
  tenant_active_jobs_key, tenant_daily_jobs_key, tenant_daily_cost_key,
}
use cloud_code_execution_eng.Redis.Counters.{value}
use cloud_code_execution_eng.Redis.Streams.{text}
use cloud_code_execution_eng.Services.{Services, Store}
use cloud_code_execution_eng.Worker.Records.{W}
use cloud_code_execution_eng.Api.Http.{Response, Request, ApiConfig}
use cloud_code_execution_eng.Api.Auth.{AuthenticatedTenant, Gate, passes, replies}

module _ (sv : Services) (date_key : ℕ → String) where
  pub record QuotaView : Type 0 where
    pub max_concurrent_jobs : ℕ
    pub max_daily_jobs : ℕ
    pub rate_limit_requests : ℕ
    pub rate_limit_window_seconds : ℕ
    pub submit_rate_limit_requests : ℕ
    pub active_jobs : ℕ
    pub daily_jobs : ℕ
    pub daily_date : String
    pub estimated_cost_usd : sv.floats.F

  abbrev pub cost_on : String → String → Store sv → sv.floats.F
  cost_on tenant_id day s =
      sv.floats.round8 (sv.totals.total (tenant_daily_cost_key tenant_id day) s.totals)

  abbrev pub quota_view : ApiConfig → AuthenticatedTenant → Store sv → QuotaView
  quota_view config tenant s =
      let id = tenant.principal.tenant_id in
      record {
        max_concurrent_jobs = tenant.principal.max_concurrent_jobs;
        max_daily_jobs = tenant.principal.max_daily_jobs;
        rate_limit_requests = config.rate_limit_requests_per_minute;
        rate_limit_window_seconds = config.rate_limit_window_seconds;
        submit_rate_limit_requests = config.submit_rate_limit_per_minute;
        active_jobs = value sv.counters (tenant_active_jobs_key id) s.counters;
        daily_jobs = value sv.counters (tenant_daily_jobs_key id (date_key 0)) s.counters;
        daily_date = date_key 0;
        estimated_cost_usd = cost_on id (date_key 0) s;
      }

  unfoldable pub get_quotas : ApiConfig → AuthenticatedTenant → W sv QuotaView
  get_quotas config tenant = remote λ s. (quota_view config tenant s, s)

  pub record CostView : Type 0 where
    pub window_days : ℕ
    pub total_estimated_cost_usd : sv.floats.F
    pub daily : List (String × sv.floats.F)

  -- So many days, from the given one back.
  abbrev pub date_keys : ℕ → ℕ → List String
  date_keys zero ago = []
  date_keys (suc days) ago = date_key ago ∷ date_keys days (ago + 1)

  abbrev added : sv.floats.F → List (String × sv.floats.F) → sv.floats.F
  added sum [] = sum
  added sum ((day, cost) ∷ more) = added (sv.floats.add sum cost) more

  abbrev pub cost_view : String → ℕ → Store sv → CostView
  cost_view tenant_id days s =
      let daily = map (λ day. (day, cost_on tenant_id day s)) (date_keys days 0) in
      record {
        window_days = days;
        total_estimated_cost_usd = sv.floats.round8 (added (sv.floats.num 0) daily);
        daily = daily;
      }

  -- The days are what the schema makes of the query, if it accepts it; without them they are 7.
  unfoldable pub get_costs : Request → String → Option (Option ℕ) → W sv (Gate CostView)
  get_costs request tenant_id none = pure (
      replies (record {
        code = 400;
        headers = [];
        body = ("error", text "validation_error") ∷ ("traceId", text request.trace_id) ∷ [];
      }))
  get_costs request tenant_id (some days) =
      remote λ s. (passes (cost_view tenant_id (or_else days 7) s) [], s)
