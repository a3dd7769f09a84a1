-- ===== src/Api/Jobs/Shown.antt =====
-- What the API shows of a job that the worker completed: services/worker/src/index.ts writes the
-- job's hash, and serializeJob of services/api/src/index.ts reads it.
use cloud_code_execution_eng.Prelude.{
  eq_iff, ℕ, ◌<◌, ◌≡◌, ◌≢◌, refl, ap, ◌∙◌, String, Bool, true, false, ◌&&◌, none, some, List,
  Bool-cases, inl, inr, if◌then◌else◌, ◌===◌,
}
use cloud_code_execution_eng.Effect.{Result, ok}
use cloud_code_execution_eng.Common.Jobs.{
  QueueJobPayload, ExecutionResult, ResultStatus, result_status_name,
}
use cloud_code_execution_eng.Services.{Services, Store}
use cloud_code_execution_eng.Worker.Ecs.{RunTask, RunTaskResponse}
use cloud_code_execution_eng.Worker.Local.{DockerRun, execute_local_runner}
use cloud_code_execution_eng.Worker.Process.{local, WorkerConfig}
use cloud_code_execution_eng.Worker.Lifecycle.{processed, job_field, process_job-IsCompleted}
use cloud_code_execution_eng.Api.Jobs.{
  Fields, Execution, serialize_job, parse_execution_result, is_text,
}

-- The status that a user sees: a failure by the time limit has its own.
abbrev pub outcome_name : ResultStatus → Bool → String
outcome_name ResultStatus.succeeded timed_out = "succeeded"
outcome_name ResultStatus.failed true = "timed_out"
outcome_name ResultStatus.failed false = "failed"

module _ (sv : Services) where
  -- A reply about a job tells of its result.
  pub record Tells (r : ExecutionResult) (e : Execution sv) : Type 0 where
    pub status : e.status ≡ some (outcome_name r.status r.timed_out)
    pub result : e.result ≡ some r
    pub runtime : e.runtime_ms ≡ some r.duration_ms
    pub exit_code : e.exit_code ≡ r.exit_code
    pub attempt_over : e.current_attempt ≡ none

  parse_execution_result-written :
      (r : ExecutionResult) (written : String)
      → written ≢ ""
      → sv.parse_result written ≡ some r
      → parse_execution_result sv (some written) ≡ some r
  parse_execution_result-written r written filled parsed = elim (Bool-cases (written === "")) [
    | inl empty ↦ absurd (filled ((eq_iff written "").0 empty))
    | inr full ↦ rw full parsed
  ]

  outcome-shown :
      (status : ResultStatus) (timed_out : Bool)
      → (if is_text "failed" (some (result_status_name status)) && timed_out
          then some "timed_out"
          else some (result_status_name status))
        ≡ some (outcome_name status timed_out)
  outcome-shown ResultStatus.succeeded timed_out = refl
  outcome-shown ResultStatus.failed true = refl
  outcome-shown ResultStatus.failed false = refl

  serialize_job-Tells :
      (r : ExecutionResult) (job : Fields) (written : String)
      → written ≢ ""
      → sv.parse_result written ≡ some r
      → job "status" ≡ some (result_status_name r.status)
      → job "result" ≡ some written
      → job "currentAttempt" ≡ some ""
      → Tells r (serialize_job sv job)
  unfolding serialize_job
  serialize_job-Tells r job written filled parsed status result over =
      let read : parse_execution_result sv (job "result") ≡ some r =
        ap (parse_execution_result sv) result
        ∙ parse_execution_result-written r written filled parsed in
      record {
        status = rw (status, read) (outcome-shown r.status r.timed_out);
        result = read;
        runtime = rw read refl;
        exit_code = rw read refl;
        attempt_over = rw over refl;
      }

  module _ (encode : QueueJobPayload → String) (trim : String → String)
      (docker : List String → Result DockerRun) (send : RunTask → Result RunTaskResponse)
      (config : WorkerConfig) (payload : QueueJobPayload) (attempts_made : ℕ) (began now : String)
      (s : Store sv) where
    -- With the local backend and a positive time to live, if the runner gives a result, which is
    -- not written as the empty text and is read back from what is written, and every call is
    -- answered, then a reply about the job shows that result, its duration and exit code, and the
    -- status "succeeded", "timed_out" or "failed" that goes with it.
    pub process_job-Tells :
        (result : ExecutionResult)
        → config.execution_backend ≡ local
        → 0 < config.job_ttl_seconds
        → execute_local_runner encode trim sv.parse_result docker payload config.runner_image
            config.max_stdio_bytes
          ≡ ok result
        → sv.stringify result ≢ ""
        → sv.parse_result (sv.stringify result) ≡ some result
        → Tells result (
            serialize_job sv (λ f.
              job_field sv encode trim docker send config payload attempts_made began now s f
                (processed sv encode trim docker send config payload attempts_made began now s).1))
    process_job-Tells result b lives e filled parsed =
        let done =
          process_job-IsCompleted sv encode trim docker send config payload attempts_made began now
            s result b lives e in
        serialize_job-Tells result _ (sv.stringify result) filled parsed done.status
          done.result_kept done.attempt_over
