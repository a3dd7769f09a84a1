-- ===== src/Witnesses/Insight.antt =====
-- The theorems on what is said and shown of a job: its analysis and its event stream.
use cloud_code_execution_eng.Prelude.{
  ℕ, zero, suc, ◌≤◌, ◌≡◌, ◌⊎◌, refl, String, Bool, true, false, Option, none, some, [], ◌∷◌, ◌===◌,
  if◌then◌else◌, len, trim,
}
use cloud_code_execution_eng.Effect.{Result, ok, err}
use cloud_code_execution_eng.Common.Jobs.{python, JobStatus, ResultStatus}
use cloud_code_execution_eng.Common.Analysis.{ExecutionAnalysis, IsAnalysis}
use cloud_code_execution_eng.Common.Schema.{units}
use cloud_code_execution_eng.Services.{Services, Store}
use cloud_code_execution_eng.Api.Http.{Response, Request, api_key}
use cloud_code_execution_eng.Api.Auth.{Gate, replies}
use cloud_code_execution_eng.Api.Jobs.{Fields, is_own}
use cloud_code_execution_eng.Api.Events.{
  Stream, opened, close_stream, publish_snapshot, snapshot, client_closes, Reach, here, next,
}
use cloud_code_execution_eng.Api.Events.Log.{IsLog, Reach-IsLog}
use cloud_code_execution_eng.Api.Events.Done.{IsDone, IsRunning, IsFinal, polled, polled-IsDone}
use cloud_code_execution_eng.Api.Analysis.{
  AnalysisInput, AnalysisOutput, AnalysisRuntimeConfig, openai,
}
use cloud_code_execution_eng.Api.Analysis.Model.{Decoded, ChatResponse}
use cloud_code_execution_eng.Api.Analysis.Retry.{Effort, generate_execution_analysis}
use cloud_code_execution_eng.Api.Analysis.Answers.{Waited}
use cloud_code_execution_eng.Api.Analysis.Outcome.{
  asks, GivesFirst, generate_execution_analysis-GivesFirst, generate_execution_analysis-IsAnalysis,
}
use cloud_code_execution_eng.Api.Analyze.{AnalyzedJob}
use cloud_code_execution_eng.Api.Analyze.Kept.{analyzed, IsKept, analyze_execution-IsKept}
use cloud_code_execution_eng.Api.Config.{Env, Config, parse_env, load_config, analysis_config}
use cloud_code_execution_eng.Api.Config.Analyzed.{load_config-waits}
use cloud_code_execution_eng.Witnesses.Setting.{
  HashTable, services, empty_store, hello_result, today,
}

abbrev schema_error : ExecutionAnalysis → String
schema_error a = "ZodError"

abbrev clock : ℕ → String
clock n = "2026-01-31T12:00:00.000Z"

abbrev decode : String → Result Decoded
decode content = ok (record {
  summary = some "Prints a digit";
  explanation = some "The loop ends at once.";
  suggestions = some (" Print a label. " ∷ []);
  confidence = some "low";
})

-- The first attempt is lost.
abbrev respond : String → ℕ → Result ChatResponse
respond key zero = err "fetch failed"
respond key (suc zero) = err "fetch failed"
respond key (suc (suc n)) = ok (record { status = 200; detail = ok ""; content = ok (some "{}") })

abbrev input : AnalysisInput
input = record {
  status = "succeeded";
  request = record {
    language = python;
    source_code = "print(1)";
    timeout_ms = 1000;
    memory_mb = 128;
    cpu_millicores = 256;
  };
  result = some hello_result;
  error = none;
}

abbrev ai_config : AnalysisRuntimeConfig
ai_config = record {
  provider = openai;
  openai_api_key = some " sk-0123456789abcdefgh ";
  retries = 2;
  retry_backoff_ms = 500;
}

generate_execution_analysis-GivesFirst_example :
    (output : AnalysisOutput) × (effort : Effort) × (generate_execution_analysis schema_error decode
        clock respond input ai_config
      ≡ ok (output, effort))
    × GivesFirst schema_error decode clock respond input ai_config output effort
    × Waited 3 500 (asks schema_error decode clock respond input ai_config) effort
unfolding trim
generate_execution_analysis-GivesFirst_example =
    generate_execution_analysis-GivesFirst schema_error decode clock respond input ai_config refl
      refl

generate_execution_analysis-IsAnalysis_example :
    (output : AnalysisOutput) × (effort : Effort) × (generate_execution_analysis schema_error decode
        clock respond input ai_config
      ≡ ok (output, effort))
    × IsAnalysis output.analysis
generate_execution_analysis-IsAnalysis_example =
    generate_execution_analysis-IsAnalysis schema_error decode clock respond input ai_config

abbrev running : Fields
running f = if f === "status" then some "running" else if f === "tenantId" then some "a" else none

abbrev finished : Fields
finished f =
    if f === "status" then some "succeeded" else if f === "tenantId" then some "a" else none

abbrev looked_at : Stream services
looked_at = publish_snapshot services "a" (ok running) (opened services)

left_early : Reach services "a" (opened services) (close_stream services looked_at)
left_early = next (next here (snapshot (ok running) (opened services))) (client_closes looked_at)

Reach-IsLog_example : IsLog services "a" (close_stream services looked_at)
Reach-IsLog_example = Reach-IsLog services "a" left_early

-- A job that failed by its time limit, as the result says.
abbrev late : Fields
late f =
    if f === "status"
    then some "failed"
    else if f === "tenantId"
    then some "a"
    else if f === "result"
    then some "late"
    else none

abbrev late_services : Services
late_services = record services {
  parse_result =
      λ text. some (record hello_result { status = ResultStatus.failed; timed_out = true });
}

late-IsFinal : IsFinal late_services "a" late ResultStatus.failed true
late-IsFinal = record { owner = refl; written = refl; said = refl }

late_running : IsRunning late_services "a" running
late_running = record { owner = refl; now = JobStatus.running; unfinished = tt; written = refl }

polled-IsDone_example :
    ((polled late_services "a" (running ∷ []) (opened late_services)).closed ≡ false)
    × IsDone late_services "a" (some "timed_out") (
        publish_snapshot late_services "a"
          (ok late)
          (polled late_services "a" (running ∷ []) (opened late_services)))
polled-IsDone_example =
    polled-IsDone late_services "a" (running ∷ []) late ResultStatus.failed true
      (opened late_services) refl (late_running, tt) late-IsFinal

abbrev job_table : HashTable
job_table k f = finished f

abbrev job_store : Store services
job_store = record empty_store { hashes = job_table }

abbrev request : Request
request = record {
  api_key = some "key";
  bearer_token = none;
  method = "POST";
  path = "/v1/jobs/j1/analyze";
  trace_id = "trace-0001";
}

abbrev reply_and_store : Result (Gate AnalyzedJob) × Store services
reply_and_store =
    analyzed services schema_error decode clock respond "audit:events" "a" today 100 ai_config
      request "j1" job_store

analyze_execution-IsKept_example :
    ((is_own "a" finished ≡ true)
      × ((output : AnalysisOutput) × IsKept services schema_error decode clock respond
            "audit:events" "a" today 100 ai_config request "j1" job_store output reply_and_store))
    ⊎ ((is_own "a" finished ≡ false)
        × ((response : Response) × (reply_and_store ≡ (ok (replies response), job_store))
            × (response.code ≡ 404)))
analyze_execution-IsKept_example =
    analyze_execution-IsKept services schema_error decode clock respond "audit:events" "a" today 100
      ai_config request "j1" job_store

abbrev env : Env
env = record {
  auth_mode = none;
  jwt_jwks_url = none;
  jwt_issuer = some "  ";
  jwt_audience = none;
  ai_provider = some "openai";
  openai_api_key = some "sk-0123456789abcdefgh";
  ai_analysis_retries = none;
  ai_analysis_retry_backoff_ms = none;
}

abbrev loaded : Config
loaded = record {
  auth_mode = api_key;
  jwt_jwks_url = none;
  jwt_issuer = none;
  jwt_audience = none;
  ai_provider = openai;
  openai_api_key = some "sk-0123456789abcdefgh";
  ai_analysis_retries = 2;
  ai_analysis_retry_backoff_ms = 500;
}

abbrev to_number : String → Option ℕ
to_number text = some (len text)

abbrev is_url : String → Bool
is_url text = true

accepts : load_config to_number is_url env ≡ ok loaded
unfolding load_config parse_env trim units
accepts = refl

load_config-waits_example :
    (output : AnalysisOutput) × (effort : Effort) × (generate_execution_analysis schema_error decode
        clock respond input
        (analysis_config loaded)
      ≡ ok (output, effort))
    × (effort.calls ≤ 6)
    × (effort.slept_ms ≤ 150_000)
load_config-waits_example =
    load_config-waits to_number is_url env loaded schema_error decode clock respond input accepts
      refl
