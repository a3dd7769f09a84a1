-- ===== src/Api/Jobs.antt =====
-- services/api/src/index.ts: serializeJob, which reads a job's hash for a reply, and what it uses.
pub mod Shown
use Prim.Native.String.{◌++◌}
use cloud_code_execution_eng.Prelude.{
  ℕ, String, Bool, true, false, ◌&&◌, not, Option, none, some, or_else, ◌===◌, if◌then◌else◌, trim,
}
use cloud_code_execution_eng.Common.Failure.{classify_failure_category, category_name}
use cloud_code_execution_eng.Common.Jobs.{
  SupportedLanguage, javascript, ExecutionResult, ResultStatus,
}
use cloud_code_execution_eng.Common.Schema.{parse_language}
use cloud_code_execution_eng.Services.{Services}

-- A job's hash: the value of a field, if it has one.
abbrev pub Fields : Type 0
Fields = String → Option String

-- `value || null`.
abbrev pub shown : Option String → Option String
shown none = none
shown (some v) = if v === "" then none else some v

abbrev pub is_shown : Option String → Bool
is_shown none = false
is_shown (some v) = not (v === "")

-- `first || second`.
abbrev first_of : Option String → Option String → Option String
first_of none second = second
first_of (some v) second = if v === "" then second else some v

abbrev pub is_text : String → Option String → Bool
is_text t none = false
is_text t (some u) = u === t

-- `data.status && data.tenantId === tenant.tenantId`.
abbrev pub is_own : String → Fields → Bool
is_own tenant_id job = is_shown (job "status") && is_text tenant_id (job "tenantId")

-- A parameter of the path, which may be missing.
abbrev named : Option String → Option String → Option String
named none other = other
named (some id) other = if trim id === "" then other else some (trim id)

unfoldable pub get_job_id_param : Option String → Option String → Option String
get_job_id_param job_id id = named job_id (named id none)

unfoldable pub normalize_language : Option String → SupportedLanguage
normalize_language none = javascript
normalize_language (some value) = or_else (parse_language value) javascript

abbrev pub did_time_out : Option ExecutionResult → Bool
did_time_out none = false
did_time_out (some r) = r.timed_out

abbrev duration_of : Option ExecutionResult → Option ℕ
duration_of none = none
duration_of (some r) = some r.duration_ms

abbrev exit_code_of : Option ExecutionResult → Option ℕ
exit_code_of none = none
exit_code_of (some r) = r.exit_code

module _ (sv : Services) where
  pub record Execution : Type 0 where
    pub job_id : Option String
    pub tenant_id : Option String
    pub trace_id : Option String
    pub status : Option String
    pub language : Option String
    pub created_at : Option String
    pub started_at : Option String
    pub completed_at : Option String
    pub timeout_ms : ℕ
    pub memory_mb : ℕ
    pub cpu_millicores : ℕ
    pub max_attempts : Option ℕ
    pub attempts_made : ℕ
    pub current_attempt : Option ℕ
    pub result : Option ExecutionResult
    pub estimated_cost_usd : sv.floats.F
    pub billable_duration_ms : ℕ
    pub cost_model_version : Option String
    pub compute_tier : Option String
    pub purchase_option : Option String
    pub failure_category : String
    pub analysis : Option sv.Json
    pub analysis_provider : Option String
    pub analysis_updated_at : Option String
    pub analysis_fallback_reason : Option String
    pub error : Option String
    pub runtime_ms : Option ℕ
    pub exit_code : Option ℕ
    pub timestamp : Option String
    pub execution_environment : String
    pub updated_at : Option String

  abbrev pub parse_json : Option String → Option sv.Json
  parse_json none = none
  parse_json (some v) = if v === "" then none else sv.parse_json v

  abbrev pub parse_execution_result : Option String → Option ExecutionResult
  parse_execution_result none = none
  parse_execution_result (some v) = if v === "" then none else sv.parse_result v

  abbrev pub to_int : Option String → ℕ → ℕ
  to_int none fallback = fallback
  to_int (some v) fallback = if v === "" then fallback else or_else (sv.to_number v) fallback

  -- `value ? toInt(value, fallback) : null`.
  abbrev to_int_or_null : Option String → ℕ → Option ℕ
  to_int_or_null value fallback = if is_shown value then some (to_int value fallback) else none

  abbrev pub to_float : Option String → sv.floats.F → sv.floats.F
  to_float none fallback = fallback
  to_float (some v) fallback = if v === "" then fallback else or_else (sv.to_float v) fallback

  unfoldable pub serialize_job : Fields → Execution
  serialize_job job =
      let result = parse_execution_result (job "result") in
      let error = shown (job "error") in
      record {
        job_id = job "jobId";
        tenant_id = job "tenantId";
        trace_id = shown (job "traceId");
        status =
            if is_text "failed" (job "status") && did_time_out result
            then some "timed_out"
            else job "status";
        language = job "language";
        created_at = job "createdAt";
        started_at = shown (job "startedAt");
        completed_at = shown (job "completedAt");
        timeout_ms = to_int (job "timeoutMs") 3000;
        memory_mb = to_int (job "memoryMb") 128;
        cpu_millicores = to_int (job "cpuMillicores") 256;
        max_attempts = to_int_or_null (job "maxAttempts") 1;
        attempts_made = if is_shown (job "attemptsMade") then to_int (job "attemptsMade") 0 else 0;
        current_attempt = to_int_or_null (job "currentAttempt") 1;
        result = result;
        estimated_cost_usd = sv.floats.round8 (to_float (job "estimatedCostUsd") (sv.floats.num 0));
        billable_duration_ms = to_int (job "billableDurationMs") (or_else (duration_of result) 0);
        cost_model_version = shown (job "costModelVersion");
        compute_tier = shown (job "computeTier");
        purchase_option = shown (job "purchaseOption");
        failure_category =
            or_else (shown (job "failureCategory"))
              (category_name (classify_failure_category sv.to_lower_case result error));
        analysis = parse_json (job "analysis");
        analysis_provider = shown (job "analysisProvider");
        analysis_updated_at = shown (job "analysisUpdatedAt");
        analysis_fallback_reason = shown (job "analysisFallbackReason");
        error = error;
        runtime_ms = duration_of result;
        exit_code = exit_code_of result;
        timestamp =
            first_of (job "completedAt")
              (first_of (job "startedAt") (first_of (job "createdAt") (job "updatedAt")));
        execution_environment =
            if is_shown (job "taskArn") then "ecs-fargate-runner" else "local-runner";
        updated_at = job "updatedAt";
      }
