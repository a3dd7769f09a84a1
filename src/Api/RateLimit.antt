-- ===== src/Api/RateLimit.antt =====
-- services/api/src/index.ts: rateLimitScript, evaluateRateLimit and evaluateSubmitRateLimit.
pub mod Window
use cloud_code_execution_eng.Prelude.{
  ℕ, ◌+◌, ◌-◌, ◌/◌, ◌==◌, String, Bool, Option, none, some, List, [], ◌∷◌, max, show, leb,
  if◌then◌else◌,
}
use cloud_code_execution_eng.Common.Keys.{tenant_rate_limit_key, tenant_submit_rate_limit_key}
use cloud_code_execution_eng.Redis.Counters.{Counters}
use cloud_code_execution_eng.Redis.Hashes.{Updates}

pub record RateLimitDecision : Type 0 where
  pub allowed : Bool
  pub limit : ℕ
  pub used : ℕ
  pub remaining : ℕ
  pub retry_after_seconds : ℕ
  pub reset_epoch_seconds : ℕ
  pub window_seconds : ℕ

abbrev pub set_rate_limit_headers : RateLimitDecision → Updates
set_rate_limit_headers d =
    ("x-ratelimit-limit", show d.limit)
    ∷ ("x-ratelimit-remaining", show d.remaining)
    ∷ ("x-ratelimit-reset", show d.reset_epoch_seconds)
    ∷ []

abbrev ttl_or : ℕ → Option ℕ → ℕ
ttl_or ttl_seconds none = ttl_seconds
ttl_or ttl_seconds (some t) = t

module _ (c : Counters) where
  open c use {Db, incr, expire, ttl}

  begin_window : String → ℕ → ℕ × Db → ℕ × Db
  begin_window key ttl_seconds (count, db) =
      if count == 1 then (count, expire key ttl_seconds db) else (count, db)

  -- The count and the time to live.
  unfoldable pub rate_limit_script : String → ℕ → Db → (ℕ × ℕ) × Db
  unfolding begin_window
  rate_limit_script key ttl_seconds db =
      let r = begin_window key ttl_seconds (incr key db) in
      ((r.0, ttl_or ttl_seconds (ttl key r.1)), r.1)

  abbrev pub decide : ℕ → ℕ → ℕ → ℕ × ℕ → RateLimitDecision
  decide limit window_seconds now_seconds (used, ttl) = record {
    allowed = leb used limit;
    limit = limit;
    used = used;
    remaining = max 0 (limit - used);
    retry_after_seconds = max 1 ttl;
    reset_epoch_seconds = now_seconds + max 1 ttl;
    window_seconds = window_seconds;
  }

  unfoldable pub evaluate_limit : String → ℕ → ℕ → ℕ → Db → RateLimitDecision × Db
  unfolding rate_limit_script
  evaluate_limit key limit window_seconds now_seconds db =
      let r = rate_limit_script key window_seconds db in
      (decide limit window_seconds now_seconds r.0, r.1)

  abbrev pub evaluate_rate_limit : String → ℕ → ℕ → ℕ → Db → RateLimitDecision × Db
  evaluate_rate_limit tenant_id limit window_seconds now_seconds =
      evaluate_limit (tenant_rate_limit_key tenant_id (show (now_seconds / window_seconds))) limit
        window_seconds now_seconds

  abbrev pub evaluate_submit_rate_limit : String → ℕ → ℕ → ℕ → Db → RateLimitDecision × Db
  evaluate_submit_rate_limit tenant_id limit window_seconds now_seconds =
      evaluate_limit (tenant_submit_rate_limit_key tenant_id (show (now_seconds / window_seconds)))
        limit window_seconds now_seconds
