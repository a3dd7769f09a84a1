-- ===== src/Quota/Traces.antt =====
-- Reservations, rollbacks and releases of many tenants in any order: the API, the worker and the
-- runner share the counters of services/api/src/quota.ts, and Redis runs each script as one step.
use cloud_code_execution_eng.Prelude.{ℕ, ◌≤◌, ◌<◌, String, arith, eq_iff}
use cloud_code_execution_eng.Redis.Counters.{Counters, value}
use cloud_code_execution_eng.Tenants.{TenantPrincipal}
use cloud_code_execution_eng.Common.Keys.{tenant_active_jobs_key}
use cloud_code_execution_eng.Common.Keys.Distinct.{IsDateKey}
use cloud_code_execution_eng.Quota.{
  reserve_quota, rollback_reserved_quota, decrement_active_quota, lower,
}
use native.Mathlib.Nat.{le_trans}
use cloud_code_execution_eng.Quota.Effect.{value-lower}
use cloud_code_execution_eng.Quota.Ledger.{reserve_quota-le}

module _ (c : Counters) where
  open c use {Db}

  -- Two principals of one tenant may have different limits: `most` bounds them all.
  pub data Step (most : String → ℕ) : Db → Db → Type 0 where
    reserve :
        (tenant : TenantPrincipal) (ttl : ℕ) (date_key : String) (db : Db)
        → tenant.max_concurrent_jobs ≤ most tenant.tenant_id
        → IsDateKey date_key
        → 0 < ttl
        → Step most db (reserve_quota c tenant ttl date_key db).1
    rollback :
        (tenant_id date_key : String) (db : Db)
        → Step most db (rollback_reserved_quota c tenant_id date_key db)
    release : (tenant_id : String) (db : Db) → Step most db (decrement_active_quota c tenant_id db)

  pub data Reach (most : String → ℕ) (start : Db) : Db → Type 0 where
    here : Reach most start start
    next : {d e : Db} → Reach most start d → Step most d e → Reach most start e

  -- No tenant has more jobs running than its limit.
  abbrev pub IsWithin : (String → ℕ) → Db → Type 0
  IsWithin most db = (t : String) → value c (tenant_active_jobs_key t) db ≤ most t

  lower-le : (k j : String) (db : Db) → value c j (lower c k db) ≤ value c j db
  lower-le k j db = ground (arith, value-lower c k j db, eq_iff k j)

  Step-IsWithin : (most : String → ℕ) {d e : Db} → Step most d e → IsWithin most d → IsWithin most e
  unfolding rollback_reserved_quota decrement_active_quota
  Step-IsWithin most (reserve tenant ttl date_key db fits dated lives) h t =
      reserve_quota-le c tenant ttl date_key db dated lives most fits h t
  Step-IsWithin most (rollback tenant_id date_key db) h t =
      le_trans (lower-le _ _ _) (le_trans (lower-le _ _ _) (h t))
  Step-IsWithin most (release tenant_id db) h t = le_trans (lower-le _ _ _) (h t)

  -- After any sequence of reservations, rollbacks and releases, of any tenants and in any order,
  -- no tenant has more active jobs than the bound on its limits, if none had before.
  pub Reach-IsWithin :
      (most : String → ℕ) {d e : Db} → IsWithin most d → Reach most d e → IsWithin most e
  Reach-IsWithin most h here = h
  Reach-IsWithin most h (next r s) = Step-IsWithin most s (Reach-IsWithin most h r)
