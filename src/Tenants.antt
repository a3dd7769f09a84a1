-- ===== src/Tenants.antt =====
-- services/api/src/tenants.ts: what a configured tenant may do.
pub mod Registry
use cloud_code_execution_eng.Prelude.{ℕ, String}

pub record TenantPolicy : Type 0 where
  pub tenant_id : String
  pub max_concurrent_jobs : ℕ
  pub max_daily_jobs : ℕ

pub record TenantPrincipal : Type 0 where
  pub policy : TenantPolicy
  pub open policy use *
  pub api_key_fingerprint : String
