-- ===== src/Quota/Ledger.antt =====
-- The contract of the quota of services/api/src/quota.ts, over two plain numbers, and the scripts
-- that implement it.
use cloud_code_execution_eng.Prelude.{
  ℕ, ◌+◌, ◌≤◌, ◌<◌, ◌≡◌, ◌≢◌, String, inl, inr, arith, leb, ◌===◌, if◌then◌else◌, eq_iff, eq_refl,
  Bool-cases,
}
use cloud_code_execution_eng.Redis.Counters.{Counters, value}
use cloud_code_execution_eng.Tenants.{TenantPrincipal}
use cloud_code_execution_eng.Common.Keys.{tenant_active_jobs_key, tenant_daily_jobs_key}
use cloud_code_execution_eng.Common.Keys.Distinct.{
  IsDateKey, active-ne-daily_jobs, tenant_active_jobs_key-injective,
}
use cloud_code_execution_eng.Quota.{
  QuotaReservation, allowed, denied, reserve_script, reserve_quota, rollback_reserved_quota, lower,
  decrement_active_quota,
}
use cloud_code_execution_eng.Quota.Effect.{
  reserve_script-admitted, reserve_script-full, reserve_script-spent, value-reserve_script,
  value-lower,
}

-- What a tenant has running, and has submitted on one day.
pub record Ledger : Type 0 where
  pub active_jobs : ℕ
  pub daily_jobs : ℕ

-- A slot is given if both numbers are below the tenant's limits, and the concurrent limit is
-- looked at first.
unfoldable pub admit : TenantPrincipal → String → Ledger → QuotaReservation × Ledger
admit tenant date_key l =
    if leb tenant.max_concurrent_jobs l.active_jobs
    then (denied "max_concurrent_jobs" l.active_jobs l.daily_jobs date_key, l)
    else if leb tenant.max_daily_jobs l.daily_jobs
    then (denied "max_daily_jobs" l.active_jobs l.daily_jobs date_key, l)
    else (
      allowed (l.active_jobs + 1) (l.daily_jobs + 1) date_key,
      record { active_jobs = l.active_jobs + 1; daily_jobs = l.daily_jobs + 1 },
    )

module _ (c : Counters) where
  open c use {Db}

  abbrev pub ledger : String → String → Db → Ledger
  ledger tenant_id date_key db = record {
    active_jobs = value c (tenant_active_jobs_key tenant_id) db;
    daily_jobs = value c (tenant_daily_jobs_key tenant_id date_key) db;
  }

  module _ (tenant : TenantPrincipal) (ttl : ℕ) (date_key : String) (db : Db)
      (dated : IsDateKey date_key) (lives : 0 < ttl) where
    open tenant use {max_concurrent_jobs as max_active, max_daily_jobs as max_daily}

    abbrev active_key : String
    active_key = tenant_active_jobs_key tenant.tenant_id

    abbrev daily_key : String
    daily_key = tenant_daily_jobs_key tenant.tenant_id date_key

    apart : active_key ≢ daily_key
    apart = active-ne-daily_jobs tenant.tenant_id tenant.tenant_id date_key dated

    -- For a date of ten characters and a positive time to live, on every branch the reservation
    -- script gives the reply and the two counts of the abstract ledger.
    pub reserve_quota-refines :
        let (reply, db') = reserve_quota c tenant ttl date_key db in
        let (promised, l) = admit tenant date_key (ledger tenant.tenant_id date_key db) in
        (reply ≡ promised) × (ledger tenant.tenant_id date_key db' ≡ l)
    unfolding reserve_quota admit
    reserve_quota-refines = ground (
      arith,
      reserve_script-full c active_key daily_key max_active max_daily ttl db apart lives,
      reserve_script-spent c active_key daily_key max_active max_daily ttl db apart lives,
      reserve_script-admitted c active_key daily_key max_active max_daily ttl db apart lives,
      value-reserve_script c active_key daily_key max_active max_daily ttl db apart lives
          active_key,
      value-reserve_script c active_key daily_key max_active max_daily ttl db apart lives daily_key,
      eq_refl active_key,
      eq_refl daily_key,
      eq_iff active_key daily_key,
    )

    -- A counter of any other name keeps its value.
    reserve_quota-others :
        (j : String)
        → active_key ≢ j
        → daily_key ≢ j
        → value c j (reserve_quota c tenant ttl date_key db).1 ≡ value c j db
    unfolding reserve_quota
    reserve_quota-others j h k = ground (
      arith,
      reserve_script-full c active_key daily_key max_active max_daily ttl db apart lives,
      reserve_script-spent c active_key daily_key max_active max_daily ttl db apart lives,
      value-reserve_script c active_key daily_key max_active max_daily ttl db apart lives j,
      eq_iff active_key j,
      eq_iff daily_key j,
    )

    -- For a date of ten characters and a positive time to live, rolling back a reservation that
    -- was allowed gives every counter its value from before.
    pub rollback-reserve_quota :
        (a d : ℕ) (j : String)
        → (reserve_quota c tenant ttl date_key db).0 ≡ allowed a d date_key
        → value c j (
            rollback_reserved_quota c tenant.tenant_id date_key
              (reserve_quota c tenant ttl date_key db).1)
          ≡ value c j db
    unfolding reserve_quota rollback_reserved_quota
    rollback-reserve_quota a d j h =
        let db' = (reserve_script c active_key daily_key max_active max_daily ttl db).1 in
        ground (
          arith,
          reserve_script-full c active_key daily_key max_active max_daily ttl db apart lives,
          reserve_script-spent c active_key daily_key max_active max_daily ttl db apart lives,
          value-reserve_script c active_key daily_key max_active max_daily ttl db apart lives j,
          value-reserve_script c active_key daily_key max_active max_daily ttl db apart lives
              active_key,
          value-reserve_script c active_key daily_key max_active max_daily ttl db apart lives
              daily_key,
          apart,
          value-lower c daily_key j (lower c active_key db'),
          value-lower c active_key j db',
          value-lower c active_key daily_key db',
          eq_iff active_key j,
          eq_iff daily_key j,
          eq_refl active_key,
          eq_refl daily_key,
          eq_iff active_key daily_key,
        )

    -- For a date of ten characters and a positive time to live, once the slot of a reservation that
    -- was allowed is released, the tenant has as many active jobs as before, and one daily job more.
    pub decrement-reserve_quota :
        (a d : ℕ)
        → (reserve_quota c tenant ttl date_key db).0 ≡ allowed a d date_key
        → let db' =
            decrement_active_quota c tenant.tenant_id (reserve_quota c tenant ttl date_key db).1 in
          (value c active_key db' ≡ value c active_key db)
          × (value c daily_key db' ≡ value c daily_key db + 1)
    unfolding reserve_quota decrement_active_quota
    decrement-reserve_quota a d h =
        let db' = (reserve_script c active_key daily_key max_active max_daily ttl db).1 in
        ground (
          arith,
          reserve_script-full c active_key daily_key max_active max_daily ttl db apart lives,
          reserve_script-spent c active_key daily_key max_active max_daily ttl db apart lives,
          value-reserve_script c active_key daily_key max_active max_daily ttl db apart lives
              active_key,
          value-reserve_script c active_key daily_key max_active max_daily ttl db apart lives
              daily_key,
          apart,
          value-lower c active_key active_key db',
          value-lower c active_key daily_key db',
          eq_refl active_key,
          eq_refl daily_key,
          eq_iff active_key daily_key,
        )

    -- A reservation leaves every tenant's count within a bound on the limits.
    pub reserve_quota-le :
        (most : String → ℕ)
        → max_active ≤ most tenant.tenant_id
        → ((t : String) → value c (tenant_active_jobs_key t) db ≤ most t)
        → (t : String)
        → value c (tenant_active_jobs_key t) (reserve_quota c tenant ttl date_key db).1 ≤ most t
    unfolding reserve_quota
    reserve_quota-le most fits h t = elim (Bool-cases (active_key === tenant_active_jobs_key t)) [
      | inl same ↦
          let own = tenant_active_jobs_key-injective tenant.tenant_id t ((eq_iff _ _).0 same) in
          rw (← own) (
            ground (
              arith,
              h tenant.tenant_id,
              reserve_script-full c active_key daily_key max_active max_daily ttl db apart lives,
              reserve_script-spent c active_key daily_key max_active max_daily ttl db apart lives,
              value-reserve_script c active_key daily_key max_active max_daily ttl db apart lives
                  active_key,
              eq_refl active_key,
            ))
      | inr other ↦ ground (
        arith,
        h t,
        reserve_quota-others (tenant_active_jobs_key t),
        eq_iff active_key (tenant_active_jobs_key t),
        active-ne-daily_jobs t tenant.tenant_id date_key dated,
      )
    ]
