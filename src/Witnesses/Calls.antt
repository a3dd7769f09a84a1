-- ===== src/Witnesses/Calls.antt =====
-- The API's theorems for one tenant.
use cloud_code_execution_eng.Prelude.{
  any, ◌===◌, if◌then◌else◌, take, ◌↔◌, ◌≤◌, ◌≡◌, refl, String, Bool, true, false, Option, none,
  some, List, [], ◌∷◌, arith, length,
}
use mathlib.Core.List.{reverse}
use cloud_code_execution_eng.Effect.{
  Result, ok, err, World, calm, delivered, dropped, unacknowledged,
}
use cloud_code_execution_eng.Common.Jobs.{JobRequest, QueueJobPayload}
use cloud_code_execution_eng.Common.Schema.{payload_fits, units, body_of}
use cloud_code_execution_eng.Services.{Store}
use cloud_code_execution_eng.Tenants.{TenantPrincipal}
use cloud_code_execution_eng.Api.Http.{Response, Request, hybrid, ApiConfig}
use cloud_code_execution_eng.Api.Auth.{
  AuthenticatedTenant, by_api_key, Claims, Gate, passes, resolved, resolve_in,
  resolve_api_key_principal,
}
use cloud_code_execution_eng.Api.Auth.Doors.{LetsIn, resolve_in-LetsIn}
use cloud_code_execution_eng.Api.Submit.{enqueue, submit_reserved, payload_of}
use cloud_code_execution_eng.Api.Submit.Rollback.{
  IsUndone, submit_reserved-IsUndone, submit_reserved-orphan,
}
use cloud_code_execution_eng.Api.Jobs.{Fields}
use cloud_code_execution_eng.Api.Read.{fields, get_execution, list_executions}
use cloud_code_execution_eng.Api.Read.Isolation.{
  IsOwned, ShowsOwn, get_execution-ShowsOwn, list_executions-own,
}
use cloud_code_execution_eng.Api.Submit.Restored.{submit_reserved-reserve_quota}
use cloud_code_execution_eng.Common.Keys.{
  tenant_job_history_key, tenant_active_jobs_key, tenant_daily_jobs_key,
}
use cloud_code_execution_eng.Common.Keys.Distinct.{IsDateKey}
use cloud_code_execution_eng.Redis.Counters.{value}
use cloud_code_execution_eng.Quota.{allowed, reserve_quota, reserve_script}
use cloud_code_execution_eng.Api.Submit.Handler.{submit_as}
use cloud_code_execution_eng.Api.Submit.Verdict.{RepliesWith, verdict, submit_as-RepliesWith}
use cloud_code_execution_eng.Witnesses.Setting.{services, empty_store, tenant_a, hello, today}

abbrev registry : String → Option TenantPrincipal
registry key = some tenant_a

abbrev pub config : ApiConfig
config = record {
  auth_mode = hybrid;
  tenant_registry = registry;
  tenant_policy_registry = λ t. none;
  is_admin_key = λ k. false;
  jwt_configured = false;
  audit_stream_key = "audit:events";
  max_source_code_bytes = 1000;
  max_stdin_bytes = 1000;
  rate_limit_window_seconds = 60;
  rate_limit_requests_per_minute = 3;
  submit_rate_limit_per_minute = 2;
  daily_quota_ttl_seconds = 100;
  job_ttl_seconds = 86400;
  job_history_max = 10;
  queue_job_attempts = 3;
}

abbrev pub request : Request
request = record {
  api_key = some "key";
  bearer_token = none;
  method = "POST";
  path = "/v1/jobs";
  trace_id = "trace-0001";
}

abbrev pub tenant : AuthenticatedTenant
tenant = record { principal = tenant_a; auth_type = by_api_key; subject = "0123456789abcdef" }

abbrev verify : String → Option Claims
verify token = none

abbrev fingerprint : String → String
fingerprint s = s

lets_in : resolve_in config verify fingerprint hybrid request ≡ resolved tenant
unfolding resolve_api_key_principal
lets_in = refl

resolve_in-LetsIn_example : LetsIn config verify fingerprint hybrid request tenant
resolve_in-LetsIn_example =
    resolve_in-LetsIn config verify fingerprint hybrid request tenant lets_in

abbrev is_uuid : String → Bool
is_uuid s = true

abbrev created : String
created = "2026-01-31T00:00:00.000Z"

abbrev lossy : World (Store services)
lossy = record { net = dropped "closed" ∷ []; store = empty_store }

hset_lost :
    enqueue services config is_uuid "issues" request "j1" created tenant_a hello lossy
    ≡ (err "closed", calm empty_store)
unfolding enqueue payload_fits units
hset_lost = refl

submit_reserved-IsUndone_example :
    IsUndone services config is_uuid "issues" request "j1" created "a" today empty_store (
      submit_reserved services config is_uuid "issues" request "j1" created tenant hello today
        lossy)
submit_reserved-IsUndone_example =
    submit_reserved-IsUndone services config is_uuid "issues" request "j1" created tenant hello
      today "closed" lossy empty_store hset_lost

abbrev payload : QueueJobPayload
payload = payload_of services config is_uuid "issues" request "j1" created tenant_a hello

fits : payload_fits is_uuid payload ≡ true
unfolding payload_fits units
fits = refl

abbrev after_loss : Result Response × World (Store services)
after_loss =
    submit_reserved services config is_uuid "issues" request "j1" created tenant hello today
      (record {
        net =
            delivered
            ∷ delivered
            ∷ delivered
            ∷ delivered
            ∷ delivered
            ∷ unacknowledged "closed"
            ∷ [];
        store = empty_store;
      })

submit_reserved-orphan_example :
    (services.queue.waiting after_loss.1.store.queue ≡ ("j1", payload) ∷ [])
    × IsUndone services config is_uuid "issues" request "j1" created "a" today empty_store
        after_loss
submit_reserved-orphan_example =
    submit_reserved-orphan services config is_uuid "issues" request "j1" created tenant hello today
      "closed" empty_store fits

-- Every key holds a job of tenant "a", and one of them is in the history.
abbrev kept : Store services
kept = record empty_store {
  hashes =
      λ k f. if f === "tenantId" then some "a" else if f === "status" then some "queued" else none;
  sets = λ k. "j1" ∷ [];
}

get_execution-ShowsOwn_example :
    (g : Gate Fields) × ((get_execution services request "a" (some "j1") (calm kept)).0 ≡ ok g)
    × ShowsOwn services request "a" (some "j1") kept g
get_execution-ShowsOwn_example = get_execution-ShowsOwn services request "a" (some "j1") kept

shown_j1 :
    (get_execution services request "a" (some "j1") (calm kept)).0
    ≡ ok (passes (fields services request "a" "j1" kept) [])
unfolding get_execution
shown_j1 = refl

hidden_j1 :
    (get_execution services request "b" (some "j1") (calm kept)).0
      ≡ ok (passes (fields services request "b" "j1" kept) [])
    → ⊥
unfolding get_execution
hidden_j1 e = cc e

listed_j1 : (list_executions services request "a" 5 (calm kept)).0 ≡ ok ("j1" ∷ [])
unfolding list_executions
listed_j1 = refl

list_executions-own_example :
    (ids : List String) × ((list_executions services request "a" 5 (calm kept)).0 ≡ ok ids)
    × (length ids ≤ 5)
    × ((any (λ x. x === "j1") ids ≡ true) ↔ (
        (any
            (λ x. x === "j1")
            (take 5 (reverse (services.sets.members (tenant_job_history_key "a") kept.sets)))
          ≡ true)
        × IsOwned services request "a" (fields services request "a" "j1" kept)))
list_executions-own_example = list_executions-own services request "a" 5 kept "j1"

abbrev reserved : World (Store services)
reserved = record {
  net = dropped "closed" ∷ [];
  store = record empty_store {
    counters = (reserve_quota services.counters tenant_a 100 today empty_store.counters).1;
  };
}

hset_lost_after_reservation :
    enqueue services config is_uuid "issues" request "j1" created tenant_a hello reserved
    ≡ (err "closed", calm reserved.store)
unfolding enqueue payload_fits units
hset_lost_after_reservation = refl

today-IsDateKey : IsDateKey today
unfolding IsDateKey
today-IsDateKey = refl

first_slot :
    (reserve_quota services.counters tenant_a 100 today empty_store.counters).0 ≡ allowed 1 1 today
unfolding reserve_quota reserve_script tenant_active_jobs_key tenant_daily_jobs_key
first_slot = refl

submit_reserved-reserve_quota_example :
    value services.counters
      (tenant_active_jobs_key "a")
      (submit_reserved services config is_uuid "issues" request "j1" created tenant hello today
        reserved).1.store.counters
    ≡ value services.counters (tenant_active_jobs_key "a") empty_store.counters
submit_reserved-reserve_quota_example =
    submit_reserved-reserve_quota services config is_uuid "issues" request "j1" created tenant hello
      today "closed" (tenant_active_jobs_key "a") 1 1 empty_store.counters reserved reserved.store
      today-IsDateKey (omega arith) first_slot refl hset_lost_after_reservation

builds :
    (r : JobRequest)
    → payload_fits is_uuid
        (payload_of services config is_uuid "issues" request "j1" created tenant_a r)
      ≡ true
unfolding payload_fits units
builds r = refl

submit_as-RepliesWith_example :
    RepliesWith services config is_uuid "issues" request "j1" created 1000 today tenant
      (verdict services config is_uuid "issues" request "j1" created 1000 today tenant
        (body_of hello)
        empty_store.counters)
      (submit_as services config is_uuid "issues" request "j1" created 1000 today tenant
        (body_of hello))
      empty_store
submit_as-RepliesWith_example =
    submit_as-RepliesWith services config is_uuid "issues" request "j1" created 1000 today tenant
      (omega arith) builds (body_of hello) empty_store
