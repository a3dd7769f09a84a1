-- ===== src/Runner/Persist.antt =====
-- services/runner/src/index.ts: persistResultToRedis, and `run` with its `catch`. The environment is
-- parsed, and the payload of JOB_DATA_B64 is decoded or not. The process that the code runs in
-- prints a result or nothing, and exits with a code.
pub mod Delivered
use Prim.Native.String.{slice}
use mathlib.Core.List.{◌++◌ as join}
use cloud_code_execution_eng.Prelude.{
  ℕ, String, Bool, true, false, Option, none, some, List, [], ◌∷◌, show, if◌then◌else◌, ◌===◌,
}
use cloud_code_execution_eng.Effect.{
  Result, ok, err, Exec, pure, raise, remote, try_catch, command, ◌>>=◌, ◌>>◌,
}
use cloud_code_execution_eng.Effect.Fallible.{◌>>=◌ as then}
use cloud_code_execution_eng.Common.Keys.{redis_job_key, tenant_daily_cost_key}
use cloud_code_execution_eng.Common.Jobs.{
  QueueJobPayload, ExecutionResult, ResultStatus, result_status_name,
}
use cloud_code_execution_eng.Common.Tiers.{
  RunnerComputeTier, small, medium, large, RunnerPurchaseOption, spot, on_demand, tier_name,
  purchase_name, resolve_cost_model_version,
}
use cloud_code_execution_eng.Redis.Hashes.{Updates}
use cloud_code_execution_eng.Redis.Streams.{MetaValue, text, number, flag, null}
use cloud_code_execution_eng.Services.{Services, Store}
use cloud_code_execution_eng.Worker.Records.{
  Billing, written_if, text_or_null, W, write_job, write_audit, release_slot, outcome_action,
}
use cloud_code_execution_eng.Worker.Endings.{
  tier_text, purchase_text, completion_cost, failure_category,
}
use cloud_code_execution_eng.Runner.Execute.{ChildRun, execute_user_code}

-- The tiers and options that the worker writes into a job.
abbrev pub read_tier : Option String → Option RunnerComputeTier
read_tier none = none
read_tier (some t) =
    if t === "small"
    then some small
    else if t === "medium"
    then some medium
    else if t === "large"
    then some large
    else none

abbrev pub read_purchase : Option String → Option RunnerPurchaseOption
read_purchase none = none
read_purchase (some t) =
    if t === "spot" then some spot else if t === "on-demand" then some on_demand else none

abbrev pub first_of : {A : Type 0} → Option A → Option A → Option A
first_of none b = b
first_of (some a) b = some a

abbrev number_or_null : Option ℕ → MetaValue
number_or_null none = null
number_or_null (some n) = number n

pub record RunnerEnv : Type 0 where
  pub to_redis : Bool
  pub redis_url : Option String
  pub audit_stream_key : String
  pub max_stdio_bytes : ℕ
  pub billing : Billing

-- What the process prints, and its exit code.
pub record Ended : Type 0 where
  pub printed : Option ExecutionResult
  pub exit_code : ℕ

module _ (sv : Services) where
  -- `billing.x ?? existing[i]` for both fields of HMGET.
  unfoldable pub resolved : Billing → String → Store sv → Billing
  resolved billing job_id s = record {
    compute_tier =
        first_of billing.compute_tier
          (read_tier (sv.hashes.hget (redis_job_key job_id) "computeTier" s.hashes));
    purchase_option =
        first_of billing.purchase_option
          (read_purchase (sv.hashes.hget (redis_job_key job_id) "purchaseOption" s.hashes));
  }

  -- The estimate is the same function of the same arguments as in the worker's store.
  abbrev pub cost_of : QueueJobPayload → ExecutionResult → Billing → sv.floats.F
  cost_of payload result b =
      completion_cost sv "" payload.job_id payload.tenant_id "" payload.trace_id result
        payload.request.cpu_millicores payload.request.memory_mb (some b)

  abbrev pub category_of : QueueJobPayload → ExecutionResult → String
  category_of payload result =
      failure_category sv "" payload.job_id payload.tenant_id "" payload.trace_id result

  abbrev pub persisted_updates : String → QueueJobPayload → ExecutionResult → Billing → Updates
  persisted_updates now payload result b =
      join
        (("status", result_status_name result.status)
          ∷ ("result", sv.stringify result)
          ∷ ("estimatedCostUsd", sv.floats.fixed8 (cost_of payload result b))
          ∷ ("billableDurationMs", show result.duration_ms)
          ∷ ("failureCategory", category_of payload result)
          ∷ ("costModelVersion", resolve_cost_model_version b.compute_tier b.purchase_option)
          ∷ ("currentAttempt", "")
          ∷ ("retryScheduledAt", "")
          ∷ ("completedAt", now)
          ∷ ("updatedAt", now)
          ∷ ("error", "")
          ∷ [])
        (join (written_if "computeTier" (tier_text b.compute_tier)) (
          join (written_if "purchaseOption" (purchase_text b.purchase_option))
            (written_if "traceId" payload.trace_id)))

  unfoldable pub persist_result_to_redis :
      RunnerEnv → QueueJobPayload → ExecutionResult → String → W sv (Unit {0})
  unfolding resolved
  persist_result_to_redis env payload result now = do
    b ← remote (λ s. (resolved env.billing payload.job_id s, s))
    command (write_job sv payload.job_id (persisted_updates now payload result b))
    command (λ s. record s {
      totals = sv.totals.incrbyfloat cost_key (cost_of payload result b) s.totals;
    })
    command (λ s. record s { totals = sv.totals.expire cost_key 86400 s.totals })
    command (release_slot sv payload.tenant_id)
    command (
        write_audit sv env.audit_stream_key "runner" (outcome_action result.status)
          payload.tenant_id payload.job_id
          (("timedOut", flag result.timed_out)
            ∷ ("exitCode", number_or_null result.exit_code)
            ∷ ("durationMs", number result.duration_ms)
            ∷ ("estimatedCostUsd", text (sv.floats.fixed8 (cost_of payload result b)))
            ∷ ("failureCategory", text (category_of payload result))
            ∷ ("computeTier", text_or_null (tier_text b.compute_tier))
            ∷ ("purchaseOption", text_or_null (purchase_text b.purchase_option))
            ∷ (
              "costModelVersion",
              text (resolve_cost_model_version b.compute_tier b.purchase_option),
            )
            ∷ ("traceId", text_or_null payload.trace_id)
            ∷ []))
    command (λ s. s)
    where
      cost_key : String
      cost_key = tenant_daily_cost_key payload.tenant_id (slice now 0 10)

  abbrev pub settled : {A : Type 0} → Result A → W sv A
  settled r w = (r, w)

  module _ (spawn : String → List String → Option String → ℕ → Result ChildRun) (env : RunnerEnv)
      (payload : Result QueueJobPayload) (started_at write_ms : ℕ) where
    has_url : Option String → Bool
    has_url none = false
    has_url (some url) = if url === "" then false else true

    unfoldable pub run : String → W sv Ended
    unfolding has_url
    run now = do
      p ← settled payload
      result ← settled (execute_user_code spawn env.max_stdio_bytes started_at write_ms p.request)
      if env.to_redis
          then (if has_url env.redis_url
              then (do
                persist_result_to_redis env p result now
                pure (record { printed = none; exit_code = 0 }))
              else raise "REDIS_URL is required when RESULT_BACKEND=redis")
          else pure (record { printed = some result; exit_code = 0 })

    abbrev pub fallback : String → ExecutionResult
    fallback message = record {
      status = ResultStatus.failed;
      exit_code = none;
      signal = none;
      timed_out = false;
      stdout = "";
      stderr = "";
      duration_ms = 0;
      runner_error = some message;
    }

    abbrev pub print_fallback : String → W sv Ended
    print_fallback message = pure (record { printed = some (fallback message); exit_code = 1 })

    pub persist_fallback : String → String → W sv Ended
    persist_fallback now message = do
      p ← settled payload
      persist_result_to_redis env p (fallback message) now
      pure (record { printed = none; exit_code = 1 })

    -- The handler of `run().catch`, in which a second failure is not looked at.
    unfoldable pub recover : String → String → W sv Ended
    unfolding has_url
    recover now message =
        if env.to_redis
        then (if has_url env.redis_url
            then try_catch (persist_fallback now message) (λ _. print_fallback message)
            else print_fallback message)
        else print_fallback message

    unfoldable pub main : String → String → W sv Ended
    main now later = try_catch (run now) (recover later)
