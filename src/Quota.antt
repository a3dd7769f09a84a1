-- ===== src/Quota.antt =====
-- services/api/src/quota.ts, and the scripts by which the worker and the runner give a slot back
-- (decrementActiveQuota of services/worker/src/store.ts, releaseScript of
-- services/runner/src/index.ts). The day of `new Date()` is an argument.
pub mod Effect
pub mod Ledger
pub mod Traces
use cloud_code_execution_eng.Prelude.{ℕ, String, if◌then◌else◌, ltb, leb, ◌==◌}
use cloud_code_execution_eng.Common.Keys.{tenant_active_jobs_key, tenant_daily_jobs_key}
use cloud_code_execution_eng.Redis.Counters.{Counters, value}
use cloud_code_execution_eng.Tenants.{TenantPrincipal}

pub data QuotaReservation : Type 0 where
  allowed : (active_jobs daily_jobs : ℕ) (date_key : String) → QuotaReservation
  denied : (reason : String) (active_jobs daily_jobs : ℕ) (date_key : String) → QuotaReservation

-- The reply of a script: a flag, a reason and two counts.
pub record Reply : Type 0 where
  pub flag : ℕ
  pub reason : String
  pub active : ℕ
  pub daily : ℕ

module _ (c : Counters) where
  open c use {Db, get, incr, decr, expire}

  start_expiry : String → ℕ → ℕ → Db → Db
  start_expiry daily_key daily_ttl daily db =
      if daily == 1 then expire daily_key daily_ttl db else db

  unfoldable pub reserve_script : String → String → ℕ → ℕ → ℕ → Db → Reply × Db
  unfolding start_expiry
  reserve_script active_key daily_key max_active max_daily daily_ttl db =
      if leb max_active active
      then (
        record {
          flag = 0;
          reason = "max_concurrent_jobs";
          active = active;
          daily = value c daily_key db;
        },
        db,
      )
      else if leb max_daily daily
      then (record { flag = 0; reason = "max_daily_jobs"; active = active; daily = daily }, db)
      else (
        record { flag = 1; reason = "ok"; active = raised.0; daily = counted.0 },
        start_expiry daily_key daily_ttl counted.0 counted.1,
      )
    where
      active : ℕ
      active = value c active_key db

      daily : ℕ
      daily = value c daily_key db

      raised : ℕ × Db
      raised = incr active_key db

      counted : ℕ × Db
      counted = incr daily_key raised.1

  abbrev pub decode : String → Reply → QuotaReservation
  decode date_key r =
      if r.flag == 1
      then allowed r.active r.daily date_key
      else denied r.reason r.active r.daily date_key

  unfoldable pub reserve_quota : TenantPrincipal → ℕ → String → Db → QuotaReservation × Db
  reserve_quota tenant daily_ttl_seconds date_key db =
      let (reply, db') =
        reserve_script (tenant_active_jobs_key tenant.tenant_id)
          (tenant_daily_jobs_key tenant.tenant_id date_key) tenant.max_concurrent_jobs
          tenant.max_daily_jobs daily_ttl_seconds db in
      (decode date_key reply, db')

  -- `if tonumber(GET key or "0") > 0 then DECR key end`.
  unfoldable pub lower : String → Db → Db
  lower key db = if ltb 0 (value c key db) then decr key db else db

  unfoldable pub rollback_reserved_quota : String → String → Db → Db
  rollback_reserved_quota tenant_id date_key db =
      lower (tenant_daily_jobs_key tenant_id date_key) (lower (tenant_active_jobs_key tenant_id) db)

  unfoldable pub decrement_active_quota : String → Db → Db
  decrement_active_quota tenant_id db = lower (tenant_active_jobs_key tenant_id) db
