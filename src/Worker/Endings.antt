-- ===== src/Worker/Endings.antt =====
-- services/worker/src/store.ts, continued: dispatch to a runner task, and the ends of a job. Each
-- operation reads the clock once, as `now`; a cost stands in the audit as its text.
use mathlib.Core.List.{◌++◌}
use cloud_code_execution_eng.Prelude.{ℕ, String, Bool, Option, none, some, [], ◌∷◌, show}
use cloud_code_execution_eng.Effect.{command, ◌>>◌}
use cloud_code_execution_eng.Common.Jobs.{ExecutionResult, result_status_name}
use cloud_code_execution_eng.Common.Tiers.{
  RunnerComputeTier, RunnerPurchaseOption, tier_name, purchase_name, resolve_cost_model_version,
}
use cloud_code_execution_eng.Common.Cost.{estimate_execution_cost_usd}
use cloud_code_execution_eng.Common.Failure.{classify_failure_category, category_name}
use cloud_code_execution_eng.Redis.Hashes.{Updates}
use cloud_code_execution_eng.Redis.Streams.{MetaValue, text, number, flag}
use cloud_code_execution_eng.Services.{Services}
use cloud_code_execution_eng.Worker.Records.{
  Dispatch, Billing, written_if, text_or_null, number_or_minus_one, outcome_action, tier_of,
  purchase_of, W, write_job, expire_job, append_audit_event, release_if, increment_daily_cost,
}

abbrev pub tier_text : Option RunnerComputeTier → Option String
tier_text none = none
tier_text (some t) = some (tier_name t)

abbrev pub purchase_text : Option RunnerPurchaseOption → Option String
purchase_text none = none
purchase_text (some p) = some (purchase_name p)

module _ (sv : Services) (now job_id tenant_id audit_stream_key : String)
    (trace_id : Option String) where
  abbrev trace : String × MetaValue
  trace = ("traceId", text_or_null trace_id)

  abbrev pub dispatched_updates : Dispatch → Updates
  dispatched_updates d =
      (("status", "dispatched") ∷ ("taskArn", d.task_arn) ∷ ("updatedAt", now) ∷ [])
      ++ (written_if "taskDefinitionArn" d.task_definition_arn
          ++ (written_if "computeTier" (tier_text d.compute_tier)
              ++ (written_if "purchaseOption" (purchase_text d.purchase_option)
                  ++ written_if "traceId" trace_id)))

  unfoldable pub mark_dispatched : Dispatch → ℕ → W sv (Unit {0})
  mark_dispatched d ttl_seconds = do
    command (write_job sv job_id (dispatched_updates d))
    command (expire_job sv job_id ttl_seconds)
    append_audit_event sv audit_stream_key "job_dispatched" tenant_id job_id (
        ("taskArn", text d.task_arn)
        ∷ ("taskDefinitionArn", text_or_null d.task_definition_arn)
        ∷ ("computeTier", text_or_null (tier_text d.compute_tier))
        ∷ ("purchaseOption", text_or_null (purchase_text d.purchase_option))
        ∷ trace
        ∷ [])

  unfoldable pub completion_cost : ExecutionResult → ℕ → ℕ → Option Billing → sv.floats.F
  completion_cost result cpu_millicores memory_mb billing =
      estimate_execution_cost_usd sv.floats (record {
        duration_ms = result.duration_ms;
        cpu_millicores = some cpu_millicores;
        memory_mb = some memory_mb;
        compute_tier = tier_of billing;
        purchase_option = purchase_of billing;
      })

  abbrev pub failure_category : ExecutionResult → String
  failure_category result =
      category_name (classify_failure_category sv.to_lower_case (some result) none)

  abbrev pub completed_updates : ExecutionResult → sv.floats.F → Option Billing → Updates
  completed_updates result cost billing =
      (("status", result_status_name result.status)
        ∷ ("result", sv.stringify result)
        ∷ ("estimatedCostUsd", sv.floats.fixed8 cost)
        ∷ ("billableDurationMs", show result.duration_ms)
        ∷ ("failureCategory", failure_category result)
        ∷ ("costModelVersion", resolve_cost_model_version (tier_of billing) (purchase_of billing))
        ∷ ("currentAttempt", "")
        ∷ ("retryScheduledAt", "")
        ∷ ("completedAt", now)
        ∷ ("updatedAt", now)
        ∷ ("error", "")
        ∷ [])
      ++ (written_if "computeTier" (tier_text (tier_of billing))
          ++ (written_if "purchaseOption" (purchase_text (purchase_of billing))
              ++ written_if "traceId" trace_id))

  unfoldable pub mark_completed :
      ExecutionResult → ℕ → ℕ → Option Billing → ℕ → Bool → W sv (Unit {0})
  unfolding completion_cost
  mark_completed result cpu_millicores memory_mb billing ttl_seconds release_quota = do
    command (write_job sv job_id (completed_updates result cost billing))
    command (expire_job sv job_id ttl_seconds)
    increment_daily_cost sv tenant_id now cost ttl_seconds
    release_if sv release_quota tenant_id
    append_audit_event sv audit_stream_key (outcome_action result.status) tenant_id job_id (
        ("timedOut", flag result.timed_out)
        ∷ ("exitCode", number_or_minus_one result.exit_code)
        ∷ ("durationMs", number result.duration_ms)
        ∷ ("estimatedCostUsd", text (sv.floats.fixed8 cost))
        ∷ ("failureCategory", text (failure_category result))
        ∷ ("computeTier", text_or_null (tier_text (tier_of billing)))
        ∷ ("purchaseOption", text_or_null (purchase_text (purchase_of billing)))
        ∷ trace
        ∷ [])
    where
      cost : sv.floats.F
      cost = completion_cost result cpu_millicores memory_mb billing

  abbrev pub failed_updates : String → Updates
  failed_updates message =
      (("status", "failed")
        ∷ ("estimatedCostUsd", "0.00000000")
        ∷ ("billableDurationMs", "0")
        ∷ (
          "failureCategory",
          category_name (classify_failure_category sv.to_lower_case none (some message)),
        )
        ∷ ("costModelVersion", "fargate-v1")
        ∷ ("currentAttempt", "")
        ∷ ("retryScheduledAt", "")
        ∷ ("error", message)
        ∷ ("completedAt", now)
        ∷ ("updatedAt", now)
        ∷ [])
      ++ written_if "traceId" trace_id

  unfoldable pub mark_failed : String → ℕ → Bool → W sv (Unit {0})
  mark_failed message ttl_seconds release_quota = do
    command (write_job sv job_id (failed_updates message))
    command (expire_job sv job_id ttl_seconds)
    release_if sv release_quota tenant_id
    append_audit_event sv audit_stream_key "job_failed" tenant_id job_id
        (("error", text message) ∷ trace ∷ [])

  unfoldable pub mark_dead_lettered : String → String → W sv (Unit {0})
  mark_dead_lettered dlq_job_id reason = do
    command (write_job sv job_id (("deadLetteredAt", now) ∷ ("updatedAt", now) ∷ []))
    append_audit_event sv audit_stream_key "job_dead_lettered" tenant_id job_id
        (("dlqJobId", text dlq_job_id) ∷ ("reason", text reason) ∷ trace ∷ [])
