-- ===== src/Witnesses/Tools.antt =====
-- The theorems on bursts, costs and the readers of headers and settings.
use cloud_code_execution_eng.Prelude.{
  ◌++◌, zero, suc, get_elem?, show, show-lacks, ℕ, ◌+◌, ◌≡◌, ◌⊎◌, refl, String, Bool, true, false,
  none, some, [], ◌∷◌, length, arith,
}
use cloud_code_execution_eng.Effect.{ok, err, calm, delivered, dropped}
use cloud_code_execution_eng.Common.Keys.{tenant_daily_cost_key}
use cloud_code_execution_eng.Common.Keys.Distinct.{IsDateKey}
use cloud_code_execution_eng.Common.Schema.{units, payload_fits, trace_fits}
use cloud_code_execution_eng.Services.{Store}
use cloud_code_execution_eng.Tenants.Registry.{
  lookup, otherwise, last_entry, first_policy, tenant_policy_registry,
  lookup-tenant_policy_registry,
}
use cloud_code_execution_eng.Api.Http.{Request, hybrid, ApiConfig}
use cloud_code_execution_eng.Api.Auth.{passes, require_admin}
use cloud_code_execution_eng.Api.Auth.Admins.{IsAdmin, require_admin-IsAdmin}
use cloud_code_execution_eng.Api.Settings.{ParsedJson, array, has_key, parse_admin_keys}
use cloud_code_execution_eng.Api.Observability.{ObservabilitySnapshot}
use cloud_code_execution_eng.Api.Metrics.{render_prometheus_metrics}
use cloud_code_execution_eng.Api.Metrics.Reading.{
  read_metrics, samples, read_metrics-render_prometheus_metrics,
}
use cloud_code_execution_eng.Api.Burst.Batches.{numbered}
use cloud_code_execution_eng.Api.Burst.Counts.{active, daily, burst, IsPayload, submit_burst-leaks}
use cloud_code_execution_eng.Api.Headers.{single, get_trace_id}
use cloud_code_execution_eng.Api.Headers.TraceIds.{AllAllowed, get_trace_id-AllAllowed}
use cloud_code_execution_eng.Api.Origins.{Some, is_allowed_origin, is_allowed_origin-Some}
use cloud_code_execution_eng.Api.Overview.{CostView, get_costs}
use cloud_code_execution_eng.Api.Overview.Billed.{get_costs-charged}
use cloud_code_execution_eng.Worker.Records.{increment_daily_cost}
use cloud_code_execution_eng.Witnesses.Setting.{services, empty_store, tenant_a, today}

abbrev config : ApiConfig
config = record {
  auth_mode = hybrid;
  tenant_registry = λ k. some tenant_a;
  tenant_policy_registry = λ t. none;
  is_admin_key = λ k. true;
  jwt_configured = false;
  audit_stream_key = "audit:events";
  max_source_code_bytes = 1000;
  max_stdin_bytes = 1000;
  rate_limit_window_seconds = 60;
  rate_limit_requests_per_minute = 3;
  submit_rate_limit_per_minute = 2;
  daily_quota_ttl_seconds = 100;
  job_ttl_seconds = 86400;
  job_history_max = 10;
  queue_job_attempts = 3;
}

abbrev request : Request
request = record {
  api_key = some "key";
  bearer_token = none;
  method = "POST";
  path = "/v1/admin/simulate/burst";
  trace_id = "trace-0001";
}

abbrev is_uuid : String → Bool
is_uuid id = true

abbrev uuid : ℕ → String
uuid n = "11111111-1111-4111-8111-111111111111"

abbrev fingerprint : String → String
fingerprint s = "0123456789abcdef"

dated : IsDateKey today
unfolding IsDateKey
dated = refl

burst_fits :
    (n : ℕ)
    → IsPayload services config is_uuid "" request uuid fingerprint "b1" today today "key" tenant_a
        2 empty_store n
unfolding payload_fits units
burst_fits n = refl

submit_burst-leaks_example :
    let r =
      burst services config is_uuid "" request uuid fingerprint "b1" today today "key" tenant_a 2
        empty_store
        (record {
          net = delivered ∷ delivered ∷ delivered ∷ dropped "ECONNRESET" ∷ [];
          store = empty_store;
        }) in
    (r.0 ≡ err "ECONNRESET")
    × (services.queue.waiting r.1.store.queue
        ≡ []
          ++ numbered services config is_uuid "" request uuid fingerprint "b1" today today "key"
              tenant_a 2 0)
    × (active services config is_uuid "" request uuid fingerprint "b1" today today "key" tenant_a 2
          empty_store r.1.store
        ≡ 0 + 2)
    × (daily services config is_uuid "" request uuid fingerprint "b1" today today "key" tenant_a 2
          empty_store r.1.store
        ≡ 0 + 2)
submit_burst-leaks_example =
    submit_burst-leaks services config is_uuid "" request uuid fingerprint "b1" today today "key"
      tenant_a 2 empty_store "ECONNRESET" dated (omega arith) (omega arith) burst_fits

abbrev date_key : ℕ → String
date_key zero = today
date_key (suc ago) = "2026-01-30"

abbrev charged : Store services
charged =
    let r = increment_daily_cost services "a" "2026-01-31T12:00:00.000Z" 7 100 (calm empty_store) in
    r.1.store

get_costs-charged_example :
    (view : CostView services date_key) × ((get_costs services date_key request "a"
        (some (some 2))
        (calm charged)).0
      ≡ ok (passes view []))
    × (view.window_days ≡ 2)
    × (length view.daily ≡ 2)
    × (get_elem? view.daily 0
        ≡ some (
          today,
          services.floats.round8 (
              services.floats.add
                (services.totals.total (tenant_daily_cost_key "a" today) empty_store.totals)
                7),
        ))
get_costs-charged_example =
    get_costs-charged services date_key request "a" "2026-01-31T12:00:00.000Z" 7 100 2 0 empty_store
      (omega arith) (omega arith) refl

lookup-tenant_policy_registry_example :
    lookup "a" (tenant_policy_registry (("key", tenant_a) ∷ []) [])
    ≡ otherwise (last_entry "a" []) (first_policy "a" (("key", tenant_a) ∷ []))
lookup-tenant_policy_registry_example =
    lookup-tenant_policy_registry "a" (("key", tenant_a) ∷ []) []

abbrev random_uuid : String
random_uuid = "11111111-1111-4111-8111-111111111111"

random_uuid-units : units random_uuid ≡ 36
unfolding units
random_uuid-units = refl

get_trace_id-AllAllowed_example :
    ((get_trace_id random_uuid (single "my trace") "req-1" ≡ random_uuid)
      ⊎ AllAllowed (get_trace_id random_uuid (single "my trace") "req-1"))
    × (trace_fits (some (get_trace_id random_uuid (single "my trace") "req-1")) ≡ true)
get_trace_id-AllAllowed_example =
    get_trace_id-AllAllowed random_uuid (single "my trace") "req-1" random_uuid-units

preview_is_allowed :
    is_allowed_origin ("https://*.vercel.app" ∷ []) "https://preview.vercel.app" ≡ true
unfolding is_allowed_origin
preview_is_allowed = refl

is_allowed_origin-Some_example : Some ("https://*.vercel.app" ∷ []) "https://preview.vercel.app"
is_allowed_origin-Some_example =
    is_allowed_origin-Some ("https://*.vercel.app" ∷ []) "https://preview.vercel.app"
      preview_is_allowed

-- The list of keys of the admins has one key and an empty text.
abbrev parse_keys : String → ParsedJson
parse_keys text = array ("" ∷ text ∷ [])

abbrev admin_config : ApiConfig
admin_config = record config { is_admin_key = has_key (parse_admin_keys parse_keys "key") }

admin_passes :
    (require_admin admin_config (λ token. none) fingerprint services request (calm empty_store)).0
    ≡ ok (passes ("key", tenant_a) [])
unfolding require_admin parse_admin_keys
admin_passes = refl

require_admin-IsAdmin_example :
    IsAdmin admin_config
      (λ token. none)
      fingerprint
      services
      request
      parse_keys
      "key"
      "key"
      tenant_a
require_admin-IsAdmin_example =
    require_admin-IsAdmin admin_config (λ token. none) fingerprint services request parse_keys "key"
      (calm empty_store) "key" tenant_a [] (λ k. refl) admin_passes

abbrev snapshot : ObservabilitySnapshot services (λ text. none) 60 1000 4
snapshot = record {
  jobs_per_second = 2;
  average_runtime_ms = 15;
  failure_rate = 0;
  queue_depth = 3;
  active_jobs = 1;
  worker_utilization = 1;
  submitted_jobs = 7;
  completed_jobs = 5;
  failed_jobs = 1;
  worker_fleet = record { running = 1; desired = 2; pending = 1; capacity = 4 };
}

read_metrics-render_prometheus_metrics_example :
    read_metrics
      (render_prometheus_metrics services (λ text. none) 60 1000 4 (λ x. show x) snapshot)
    ≡ samples services (λ text. none) 60 1000 4 (λ x. show x) snapshot
read_metrics-render_prometheus_metrics_example =
    read_metrics-render_prometheus_metrics services (λ text. none) 60 1000 4 (λ x. show x) snapshot
      (λ x. show-lacks x)
