-- ===== src/Api/Logs.antt =====
-- services/api/src/index.ts: app.get("/executions/:id/logs"), for a tenant that is let in.
-- The id of the trace, which the reply repeats, is left out.
use cloud_code_execution_eng.Prelude.{refl, [], ℕ, ◌≡◌, ap, String, Bool, false, Option, none, some}
use cloud_code_execution_eng.Effect.{World, ok, pure, ◌>>=◌}
use cloud_code_execution_eng.Common.Jobs.{ExecutionResult}
use cloud_code_execution_eng.Services.{Services, Store}
use cloud_code_execution_eng.Worker.Records.{W}
use cloud_code_execution_eng.Api.Http.{Request}
use cloud_code_execution_eng.Api.Auth.{Gate, passes, replies}
use cloud_code_execution_eng.Api.Jobs.{Fields, Execution, serialize_job}
use cloud_code_execution_eng.Api.Jobs.Shown.{Tells, outcome_name}
use cloud_code_execution_eng.Api.Read.{get_execution}

pub record Logs : Type 0 where
  pub execution_id : Option String
  pub status : Option String
  pub stdout : String
  pub stderr : String
  pub timed_out : Bool
  pub duration_ms : Option ℕ
  pub updated_at : Option String

abbrev stdout_of : Option ExecutionResult → String
stdout_of none = ""
stdout_of (some r) = r.stdout

abbrev stderr_of : Option ExecutionResult → String
stderr_of none = ""
stderr_of (some r) = r.stderr

abbrev timed_out_of : Option ExecutionResult → Bool
timed_out_of none = false
timed_out_of (some r) = r.timed_out

abbrev duration_of : Option ExecutionResult → Option ℕ
duration_of none = none
duration_of (some r) = some r.duration_ms

module _ (sv : Services) where
  unfoldable pub logs_of : Execution sv → Logs
  logs_of e = record {
    execution_id = e.job_id;
    status = e.status;
    stdout = stdout_of e.result;
    stderr = stderr_of e.result;
    timed_out = timed_out_of e.result;
    duration_ms = duration_of e.result;
    updated_at = e.updated_at;
  }

  abbrev pub logged : Gate Fields → Gate Logs
  logged (replies response) = replies response
  logged (passes job headers) = passes (logs_of (serialize_job sv job)) headers

  -- The checks and their replies are those of getExecutionHandler.
  unfoldable pub get_logs : Request → String → Option String → W sv (Gate Logs)
  get_logs request tenant_id job_id =
      get_execution sv request tenant_id job_id >>= λ gate. pure (logged gate)

  -- Logs that tell of a result.
  pub record Logged (r : ExecutionResult) (l : Logs) : Type 0 where
    pub status : l.status ≡ some (outcome_name r.status r.timed_out)
    pub stdout : l.stdout ≡ r.stdout
    pub stderr : l.stderr ≡ r.stderr
    pub timed_out : l.timed_out ≡ r.timed_out
    pub duration : l.duration_ms ≡ some r.duration_ms

  -- The logs of a job whose reply tells of a result are those of the result.
  pub logs_of-Logged :
      (r : ExecutionResult) (e : Execution sv) → Tells sv r e → Logged r (logs_of e)
  unfolding logs_of
  logs_of-Logged r e tells = record {
    status = tells.status;
    stdout = ap stdout_of tells.result;
    stderr = ap stderr_of tells.result;
    timed_out = ap timed_out_of tells.result;
    duration = ap duration_of tells.result;
  }

  -- Where the execution is shown, its logs are.
  pub get_logs-get_execution :
      (request : Request) (tenant_id : String) (job_id : Option String) (w : World (Store sv))
      (job : Fields)
      → (get_execution sv request tenant_id job_id w).0 ≡ ok (passes job [])
      → (get_logs request tenant_id job_id w).0 ≡ ok (passes (logs_of (serialize_job sv job)) [])
  unfolding get_logs
  get_logs-get_execution request tenant_id job_id w job shown = rw shown refl
