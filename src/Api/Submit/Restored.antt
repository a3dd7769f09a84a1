-- ===== src/Api/Submit/Restored.antt =====
-- The quota after a submission of services/api/src/index.ts that fails on its way to the queue.
use cloud_code_execution_eng.Prelude.{ℕ, ◌<◌, ◌≡◌, ◌∙◌, ap, String, Bool}
use cloud_code_execution_eng.Effect.{err, World, calm}
use cloud_code_execution_eng.Common.Jobs.{JobRequest}
use cloud_code_execution_eng.Common.Keys.Distinct.{IsDateKey}
use cloud_code_execution_eng.Redis.Counters.{value}
use cloud_code_execution_eng.Quota.{allowed, reserve_quota, rollback_reserved_quota}
use cloud_code_execution_eng.Quota.Ledger.{rollback-reserve_quota}
use cloud_code_execution_eng.Services.{Services, Store}
use cloud_code_execution_eng.Api.Http.{Request, ApiConfig}
use cloud_code_execution_eng.Api.Auth.{AuthenticatedTenant}
use cloud_code_execution_eng.Api.Submit.{enqueue, submit_reserved}
use cloud_code_execution_eng.Api.Submit.Rollback.{submit_reserved-IsUndone}

module _ (sv : Services) (config : ApiConfig) (is_uuid : String → Bool) (issues : String)
    (request : Request) (job_id created_at : String) where
  -- For a date of ten characters and a positive time to live, if a slot was reserved, putting the
  -- job into the store and the queue throws, and the calls after it are answered, then every
  -- counter has the value that it had before the reservation.
  pub submit_reserved-reserve_quota :
      (tenant : AuthenticatedTenant) (r : JobRequest) (date_key message key : String) (a d : ℕ)
      (before : sv.counters.Db) (w : World (Store sv)) (s : Store sv)
      → IsDateKey date_key
      → 0 < config.daily_quota_ttl_seconds
      → (reserve_quota sv.counters tenant.principal config.daily_quota_ttl_seconds date_key
          before).0
        ≡ allowed a d date_key
      → w.store.counters
        ≡ (reserve_quota sv.counters tenant.principal config.daily_quota_ttl_seconds date_key
            before).1
      → enqueue sv config is_uuid issues request job_id created_at tenant.principal r w
        ≡ (err message, calm s)
      → value sv.counters key
          (submit_reserved sv config is_uuid issues request job_id created_at tenant r date_key
            w).1.store.counters
        ≡ value sv.counters key before
  submit_reserved-reserve_quota tenant r date_key message key a d before w s dated lives ha hw e =
      let undone =
        submit_reserved-IsUndone sv config is_uuid issues request job_id created_at tenant r
          date_key message w s e in
      ap (value sv.counters key) undone.quota
      ∙ ap
          (λ db.
            value sv.counters key
              (rollback_reserved_quota sv.counters tenant.principal.tenant_id date_key db))
          hw
      ∙ rollback-reserve_quota sv.counters tenant.principal config.daily_quota_ttl_seconds date_key
          before dated lives a d key ha
