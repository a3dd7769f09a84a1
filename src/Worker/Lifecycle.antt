-- ===== src/Worker/Lifecycle.antt =====
-- What the handler of a job in services/worker/src/index.ts leaves behind, by backend, when every
-- call is answered.
use cloud_code_execution_eng.Prelude.{
  Bool-cases, ◌===◌, Option-cases, inl, inr, ◌∙◌, ◌+◌, ℕ, ◌<◌, ◌≡◌, refl, String, Option, none,
  some, List,
}
use cloud_code_execution_eng.Effect.{Result, ok, err, calm}
use cloud_code_execution_eng.Common.Keys.{redis_job_key}
use cloud_code_execution_eng.Common.Jobs.{QueueJobPayload, ExecutionResult, result_status_name}
use cloud_code_execution_eng.Redis.Hashes.{written}
use cloud_code_execution_eng.Services.{Services, Store}
use cloud_code_execution_eng.Quota.{decrement_active_quota}
use cloud_code_execution_eng.Redis.HashLaws.{hget-expire_own, hget-hset_own}
use cloud_code_execution_eng.Worker.Records.{
  written_if, mark_running, increment_daily_cost, running_updates,
}
use cloud_code_execution_eng.Worker.Endings.{
  completion_cost, mark_completed, mark_dispatched, completed_updates, dispatched_updates,
}
use cloud_code_execution_eng.Worker.Ecs.{
  RunTask, RunTaskResponse, RunnerDispatchResult, dispatch_ecs_runner,
}
use cloud_code_execution_eng.Worker.Local.{DockerRun, execute_local_runner}
use cloud_code_execution_eng.Worker.Process.{
  local, ecs, WorkerConfig, Processed, completed, dispatched, dispatch_record, run_backend,
  process_job,
}

module _ (sv : Services) (encode : QueueJobPayload → String) (trim : String → String)
    (docker : List String → Result DockerRun) (send : RunTask → Result RunTaskResponse)
    (config : WorkerConfig) (payload : QueueJobPayload) (attempts_made : ℕ) (began now : String)
    (s : Store sv) where
  abbrev pub job_field : String → Store sv → Option String
  job_field f t = sv.hashes.hget (redis_job_key payload.job_id) f t.hashes

  abbrev pub processed : Result Processed × Store sv
  processed =
      let r =
        process_job sv encode trim docker send config payload attempts_made began now (calm s) in
      (r.0, r.1.store)

  -- The job's result is kept, and its slot is free again.
  pub record IsCompleted (result : ExecutionResult) (r : Result Processed × Store sv) : Type 0 where
    pub answer : r.0 ≡ ok (completed result)
    pub slot_released :
        r.1.counters ≡ decrement_active_quota sv.counters payload.tenant_id s.counters
    pub status : job_field "status" r.1 ≡ some (result_status_name result.status)
    pub result_kept : job_field "result" r.1 ≡ some (sv.stringify result)
    pub attempt_over : job_field "currentAttempt" r.1 ≡ some ""
    pub owner_kept : job_field "tenantId" r.1 ≡ job_field "tenantId" s

  -- The job is with a runner task, which will give the slot back.
  pub record IsHandedOver (d : RunnerDispatchResult) (r : Result Processed × Store sv)
      : Type 0 where
    pub answer : r.0 ≡ ok (dispatched d)
    pub slot_kept : r.1.counters ≡ s.counters
    pub status : job_field "status" r.1 ≡ some "dispatched"
    pub task : job_field "taskArn" r.1 ≡ some d.task_arn

  -- The handler throws, so that the queue tries again; the slot is kept until then.
  pub record IsThrown (message : String) (r : Result Processed × Store sv) : Type 0 where
    pub answer : r.0 ≡ err message
    pub slot_kept : r.1.counters ≡ s.counters
    pub status : job_field "status" r.1 ≡ some "running"

  traced-owner : written "tenantId" (written_if "traceId" payload.trace_id) ≡ none
  traced-owner = elim (Option-cases payload.trace_id) [
    | inl untraced ↦ rw untraced refl
    | inr (id, traced) ↦ elim (Bool-cases (id === "")) [
      | inl empty ↦ rw (traced, empty) refl
      | inr full ↦ rw (traced, full) refl
    ]
  ]

  -- With the local backend and a positive time to live, if the runner gives a result and every
  -- call is answered, the job keeps that result and its status, and one slot is released.
  pub process_job-IsCompleted :
      (result : ExecutionResult)
      → config.execution_backend ≡ local
      → 0 < config.job_ttl_seconds
      → execute_local_runner encode trim sv.parse_result docker payload config.runner_image
          config.max_stdio_bytes
        ≡ ok result
      → IsCompleted result processed
  unfolding process_job run_backend mark_running mark_completed increment_daily_cost
  process_job-IsCompleted result b lives e =
      let k = redis_job_key payload.job_id in
      let cost =
        completion_cost sv now payload.job_id payload.tenant_id config.audit_stream_key
          payload.trace_id result payload.request.cpu_millicores payload.request.memory_mb none in
      let us =
        completed_updates sv now payload.job_id payload.tenant_id config.audit_stream_key
          payload.trace_id result cost none in
      let before =
        sv.hashes.hset k
          (running_updates sv began payload.job_id payload.tenant_id config.audit_stream_key
            payload.trace_id (attempts_made + 1))
          s.hashes in
      let kept =
        λ (f : String). hget-expire_own sv.hashes k f us config.job_ttl_seconds before lives in
      rw (b, e)
        (record {
          answer = refl;
          slot_released = refl;
          status = kept "status";
          result_kept = kept "result";
          attempt_over = kept "currentAttempt";
          owner_kept =
              kept "tenantId"
              ∙ rw traced-owner
                  (hget-hset_own sv.hashes k "tenantId" _ s.hashes ∙ rw traced-owner refl);
        })

  -- With the ECS backend and a positive time to live, if the dispatch succeeds and every call is
  -- answered, the job is recorded as dispatched with its task, and its slot is kept.
  pub process_job-IsHandedOver :
      (d : RunnerDispatchResult)
      → config.execution_backend ≡ ecs
      → 0 < config.job_ttl_seconds
      → dispatch_ecs_runner encode trim send config.ecs payload ≡ ok d
      → IsHandedOver d processed
  unfolding process_job run_backend mark_running mark_dispatched
  process_job-IsHandedOver d b lives e =
      rw (b, e)
        (record {
          answer = refl;
          slot_kept = refl;
          status =
              hget-expire_own sv.hashes _ "status"
                (dispatched_updates sv now "" "" "" payload.trace_id (dispatch_record d)) _ _ lives;
          task =
              hget-expire_own sv.hashes _ "taskArn"
                (dispatched_updates sv now "" "" "" payload.trace_id (dispatch_record d)) _ _ lives;
        })

  -- With the local backend, if the runner throws and every call is answered, the handler throws
  -- the same error, the slot is kept, and the job stays recorded as running.
  pub process_job-IsThrown :
      (message : String)
      → config.execution_backend ≡ local
      → execute_local_runner encode trim sv.parse_result docker payload config.runner_image
          config.max_stdio_bytes
        ≡ err message
      → IsThrown message processed
  unfolding process_job run_backend mark_running
  process_job-IsThrown message b e =
      rw (b, e)
        (record {
          answer = refl;
          slot_kept = refl;
          status = hget-hset_own sv.hashes _ "status" _ _;
        })
