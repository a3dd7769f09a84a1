-- ===== src/Worker/Records.antt =====
-- services/worker/src/store.ts: how the worker writes what becomes of a job. Each operation reads
-- the clock once, as `now`; the time that the audit stream keeps is left out.
use Prim.Native.String.{slice}
use mathlib.Core.List.{◌++◌ as join}
use cloud_code_execution_eng.Prelude.{
  ℕ, ◌-◌, String, Bool, true, false, Option, none, some, List, [], ◌∷◌, max, show, if◌then◌else◌,
  ◌===◌,
}
use cloud_code_execution_eng.Effect.{Exec, pure, command, ◌>>◌}
use cloud_code_execution_eng.Common.Keys.{redis_job_key, tenant_daily_cost_key}
use cloud_code_execution_eng.Common.Jobs.{ResultStatus}
use cloud_code_execution_eng.Common.Tiers.{RunnerComputeTier, RunnerPurchaseOption}
use cloud_code_execution_eng.Redis.Hashes.{Updates}
use cloud_code_execution_eng.Redis.Streams.{MetaValue, text, number, minus_one, null}
use cloud_code_execution_eng.Services.{Services, Store}
use cloud_code_execution_eng.Quota.{decrement_active_quota}

pub record Dispatch : Type 0 where
  pub task_arn : String
  pub task_definition_arn : Option String
  pub compute_tier : Option RunnerComputeTier
  pub purchase_option : Option RunnerPurchaseOption

pub record Billing : Type 0 where
  pub compute_tier : Option RunnerComputeTier
  pub purchase_option : Option RunnerPurchaseOption

-- `if (value) { updates.field = value }`: an absent value writes nothing, nor does an empty text.
abbrev pub written_if : String → Option String → Updates
written_if field none = []
written_if field (some v) = if v === "" then [] else (field, v) ∷ []

abbrev pub text_or_null : Option String → MetaValue
text_or_null none = null
text_or_null (some v) = text v

abbrev pub number_or_minus_one : Option ℕ → MetaValue
number_or_minus_one none = minus_one
number_or_minus_one (some n) = number n

-- The action that reports the end of a job.
abbrev pub outcome_action : ResultStatus → String
outcome_action ResultStatus.succeeded = "job_succeeded"
outcome_action ResultStatus.failed = "job_failed"

abbrev pub tier_of : Option Billing → Option RunnerComputeTier
tier_of none = none
tier_of (some b) = b.compute_tier

abbrev pub purchase_of : Option Billing → Option RunnerPurchaseOption
purchase_of none = none
purchase_of (some b) = b.purchase_option

module _ (sv : Services) where
  abbrev pub W : Type 0 → Type 0
  W = Exec (Store sv)

  abbrev pub write_job : String → Updates → Store sv → Store sv
  write_job job_id updates s = record s {
    hashes = sv.hashes.hset (redis_job_key job_id) updates s.hashes;
  }

  abbrev pub expire_job : String → ℕ → Store sv → Store sv
  expire_job job_id ttl s = record s {
    hashes = sv.hashes.expire (redis_job_key job_id) ttl s.hashes;
  }

  abbrev pub write_audit :
      String → String → String → String → String → List (String × MetaValue) → Store sv → Store sv
  write_audit stream_key actor action tenant_id job_id metadata s = record s {
    streams =
        sv.streams.xadd stream_key
          (record {
            actor = actor;
            action = action;
            tenant_id = some tenant_id;
            job_id = some job_id;
            metadata = metadata;
          })
          s.streams;
  }

  abbrev pub append_audit_event :
      String → String → String → String → List (String × MetaValue) → W (Unit {0})
  append_audit_event stream_key action tenant_id job_id metadata =
      command (write_audit stream_key "worker" action tenant_id job_id metadata)

  abbrev pub release_slot : String → Store sv → Store sv
  release_slot tenant_id s = record s {
    counters = decrement_active_quota sv.counters tenant_id s.counters;
  }

  abbrev pub release_if : Bool → String → W (Unit {0})
  release_if true tenant_id = command (release_slot tenant_id)
  release_if false tenant_id = pure tt

  unfoldable pub increment_daily_cost : String → String → sv.floats.F → ℕ → W (Unit {0})
  increment_daily_cost tenant_id timestamp_iso amount_usd ttl_seconds = do
    command (λ s. record s { totals = sv.totals.incrbyfloat key amount_usd s.totals })
    command (λ s. record s { totals = sv.totals.expire key ttl_seconds s.totals })
    where
      key : String
      key = tenant_daily_cost_key tenant_id (slice timestamp_iso 0 10)

  module _ (now job_id tenant_id audit_stream_key : String) (trace_id : Option String) where
    abbrev trace : String × MetaValue
    trace = ("traceId", text_or_null trace_id)

    abbrev pub running_updates : ℕ → Updates
    running_updates attempt_number =
        join
          (("status", "running")
            ∷ ("attemptsMade", show attempt_number)
            ∷ ("currentAttempt", show attempt_number)
            ∷ ("error", "")
            ∷ ("startedAt", now)
            ∷ ("updatedAt", now)
            ∷ [])
          (written_if "traceId" trace_id)

    unfoldable pub mark_running : ℕ → W (Unit {0})
    mark_running attempt_number = do
      command (write_job job_id (running_updates attempt_number))
      append_audit_event audit_stream_key "job_running" tenant_id job_id
          (("attemptNumber", number attempt_number) ∷ trace ∷ [])

    abbrev pub retrying_updates : String → ℕ → Updates
    retrying_updates message next_attempt_number =
        join
          (("status", "retrying")
            ∷ ("attemptsMade", show (max 1 (next_attempt_number - 1)))
            ∷ ("error", message)
            ∷ ("retryScheduledAt", now)
            ∷ ("currentAttempt", show next_attempt_number)
            ∷ ("updatedAt", now)
            ∷ [])
          (written_if "traceId" trace_id)

    unfoldable pub mark_retrying : String → ℕ → W (Unit {0})
    mark_retrying message next_attempt_number = do
      command (write_job job_id (retrying_updates message next_attempt_number))
      append_audit_event audit_stream_key "job_retrying" tenant_id job_id
          (("nextAttemptNumber", number next_attempt_number) ∷ ("error", text message) ∷ trace ∷ [])
