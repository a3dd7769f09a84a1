-- ===== src/Worker/Process.antt =====
-- services/worker/src/index.ts and services/worker/src/queue-metrics.ts: the handler of a job, the
-- handler of the event `failed`, the delay of a retry and the metric of the queue's depth. Telemetry
-- is left out. Each clock reading is an argument.
use Prim.Native.String.{◌++◌}
use cloud_code_execution_eng.Prelude.{
  List, ℕ, ◌+◌, ◌-◌, ◌*◌, ◌^◌, String, true, Option, none, some, max, min, ltb, if◌then◌else◌,
}
use cloud_code_execution_eng.Effect.{Result, pure, command, ◌>>=◌, ◌>>◌}
use cloud_code_execution_eng.Common.Jobs.{QueueJobPayload, ExecutionResult}
use cloud_code_execution_eng.Services.{Services, Store, DeadLetter}
use cloud_code_execution_eng.Worker.Records.{Dispatch, W, mark_running, mark_retrying}
use cloud_code_execution_eng.Worker.Endings.{
  mark_dispatched, mark_completed, mark_failed, mark_dead_lettered,
}
use cloud_code_execution_eng.Worker.Ecs.{
  EcsConfig, RunTask, RunTaskResponse, RunnerDispatchResult, dispatch_ecs_runner,
}
use cloud_code_execution_eng.Worker.Local.{DockerRun, execute_local_runner}

pub data ExecutionBackend : Type 0 where
  local ecs : ExecutionBackend

pub record WorkerConfig : Type 0 where
  pub execution_backend : ExecutionBackend
  pub runner_image : String
  pub max_stdio_bytes : ℕ
  pub job_ttl_seconds : ℕ
  pub audit_stream_key : String
  pub queue_job_attempts : ℕ
  pub ecs : EcsConfig

-- `jitter` is `Math.floor(Math.random() * baseDelayMs)`.
unfoldable pub jittered_backoff : ℕ → ℕ → ℕ → ℕ → ℕ
jittered_backoff attempts_made base_delay_ms max_delay_ms jitter =
    min max_delay_ms (base_delay_ms * 2 ^ (attempts_made - 1) + jitter)

unfoldable pub get_queue_depth : ℕ → ℕ
get_queue_depth waiting_count = max 0 waiting_count

pub record QueueDepthMetric : Type 0 where
  pub queue_depth : ℕ
  pub scale_signal : ℕ

unfoldable pub queue_depth_metric : ExecutionBackend → ℕ → ℕ → Option QueueDepthMetric
unfolding get_queue_depth
queue_depth_metric local target waiting_count = none
queue_depth_metric ecs target waiting_count = some (record {
  queue_depth = get_queue_depth waiting_count;
  scale_signal =
      if ltb 0 (get_queue_depth waiting_count)
      then max (get_queue_depth waiting_count) (max 1 target + 1)
      else 0;
})

pub data Processed : Type 0 where
  completed : ExecutionResult → Processed
  dispatched : RunnerDispatchResult → Processed

abbrev pub dispatch_record : RunnerDispatchResult → Dispatch
dispatch_record d = record {
  task_arn = d.task_arn;
  task_definition_arn = some d.task_definition_arn;
  compute_tier = some d.compute_tier;
  purchase_option = some d.purchase_option;
}

module _ (sv : Services) where
  -- A call that touches nothing of the store.
  abbrev pub outside : {A : Type 0} → Result A → W sv A
  outside r w = (r, w)

  module _ (encode : QueueJobPayload → String) (trim : String → String)
      (docker : List String → Result DockerRun) (send : RunTask → Result RunTaskResponse)
      (config : WorkerConfig) where
    -- The branch of the configured backend.
    unfoldable pub run_backend : ExecutionBackend → QueueJobPayload → String → W sv Processed
    run_backend local payload now = do
      result ← outside (
          execute_local_runner encode trim sv.parse_result docker payload config.runner_image
            config.max_stdio_bytes)
      mark_completed sv now payload.job_id payload.tenant_id config.audit_stream_key
          payload.trace_id result payload.request.cpu_millicores payload.request.memory_mb none
          config.job_ttl_seconds true
      pure (completed result)
    run_backend ecs payload now = do
      dispatch ← outside (dispatch_ecs_runner encode trim send config.ecs payload)
      mark_dispatched sv now payload.job_id payload.tenant_id config.audit_stream_key
          payload.trace_id (dispatch_record dispatch) config.job_ttl_seconds
      pure (dispatched dispatch)

    -- The handler of a job whose data parse, the clock being read as `began` and as `now`.
    unfoldable pub process_job : QueueJobPayload → ℕ → String → String → W sv Processed
    unfolding run_backend
    process_job payload attempts_made began now = do
      mark_running sv began payload.job_id payload.tenant_id config.audit_stream_key
          payload.trace_id (attempts_made + 1)
      run_backend config.execution_backend payload now

    abbrev pub dead_letter : QueueJobPayload → String → ℕ → String → DeadLetter
    dead_letter payload message attempts_made now = record {
      payload = payload;
      error = message;
      attempts_made = attempts_made;
      failed_at = now;
    }

    abbrev pub add_dead_letter : String → DeadLetter → Store sv → Store sv
    add_dead_letter dlq_job_id letter s = record s {
      dead_letters = sv.dead_letters.add dlq_job_id letter s.dead_letters;
    }

    -- The handler of `failed` for a job whose data parse. `millis` is the text of `Date.now()`.
    unfoldable pub on_failed : QueueJobPayload → ℕ → ℕ → String → String → String → W sv (Unit {0})
    on_failed payload attempts_made max_attempts message now millis =
        if ltb attempts_made max_attempts
        then mark_retrying sv now payload.job_id payload.tenant_id config.audit_stream_key
            payload.trace_id message (attempts_made + 1)
        else (do
          mark_failed sv now payload.job_id payload.tenant_id config.audit_stream_key
              payload.trace_id message config.job_ttl_seconds true
          command (
              add_dead_letter (payload.job_id ++ ("-dlq-" ++ millis))
                (dead_letter payload message attempts_made now))
          mark_dead_lettered sv now payload.job_id payload.tenant_id config.audit_stream_key
              payload.trace_id (payload.job_id ++ ("-dlq-" ++ millis)) message)
