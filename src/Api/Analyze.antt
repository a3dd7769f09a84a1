-- ===== src/Api/Analyze.antt =====
-- services/api/src/index.ts: analyzeExecutionHandler, for a tenant that is let in. What the model
-- replies is a parameter, as are the clock and what JSON makes of its texts.
pub mod Kept
use cloud_code_execution_eng.Prelude.{
  ℕ, String, Bool, true, false, Option, none, some, List, [], ◌∷◌, or_else, if◌then◌else◌,
  first_units,
}
use cloud_code_execution_eng.Effect.{Result, ok, err, pure, raise, remote, command, ◌>>=◌, ◌>>◌}
use cloud_code_execution_eng.Common.Keys.{redis_job_key}
use cloud_code_execution_eng.Common.Analysis.{ExecutionAnalysis, confidence_name}
use cloud_code_execution_eng.Redis.Hashes.{Updates}
use cloud_code_execution_eng.Redis.Streams.{MetaValue, text}
use cloud_code_execution_eng.Services.{Services, Store}
use cloud_code_execution_eng.Worker.Records.{W, write_job, text_or_null}
use cloud_code_execution_eng.Api.Http.{Response, Request, append_audit_event}
use cloud_code_execution_eng.Api.Auth.{Gate, passes, replies}
use cloud_code_execution_eng.Api.Jobs.{
  Fields, shown, is_own, normalize_language, parse_execution_result, to_int,
}
use cloud_code_execution_eng.Api.Analysis.{
  AnalysisInput, AnalysisOutput, provider_name, AnalysisRuntimeConfig,
}
use cloud_code_execution_eng.Api.Analysis.Model.{Decoded, ChatResponse}
use cloud_code_execution_eng.Api.Analysis.Retry.{Effort, generate_execution_analysis}

-- The reply: the job's id, its status and the analysis with its provider.
pub record AnalyzedJob : Type 0 where
  pub job_id : String
  pub status : Option String
  pub output : AnalysisOutput

module _ (sv : Services) where
  unfoldable pub analysis_input : ℕ → Fields → AnalysisInput
  analysis_input max_source_chars job = record {
    status = or_else (job "status") "";
    request = record {
      language = normalize_language (job "language");
      source_code = first_units max_source_chars (or_else (job "sourceCode") "");
      timeout_ms = to_int sv (job "timeoutMs") 3000;
      memory_mb = to_int sv (job "memoryMb") 128;
      cpu_millicores = to_int sv (job "cpuMillicores") 256;
    };
    result = parse_execution_result sv (job "result");
    error = shown (job "error");
  }

  abbrev pub analysis_updates : AnalysisOutput → String → Updates
  analysis_updates output now =
      ("analysis", sv.stringify_analysis output.analysis)
      ∷ ("analysisProvider", provider_name output.provider)
      ∷ ("analysisUpdatedAt", output.analysis.generated_at)
      ∷ ("analysisFallbackReason", or_else output.fallback_reason "")
      ∷ ("updatedAt", now)
      ∷ []

module _ (sv : Services) (schema_error : ExecutionAnalysis → String)
    (decode : String → Result Decoded) (clock : ℕ → String)
    (respond : String → ℕ → Result ChatResponse) where
  abbrev lifted : Result (AnalysisOutput × Effort) → W sv AnalysisOutput
  lifted (ok (output, _)) = pure output
  lifted (err message) = raise message

  module _ (audit_stream_key tenant_id now : String) (max_source_chars : ℕ)
      (config : AnalysisRuntimeConfig) (request : Request) where
    abbrev trace : String × MetaValue
    trace = ("traceId", text request.trace_id)

    abbrev pub refused : ℕ → List (String × MetaValue) → Gate AnalyzedJob
    refused code body = replies (record { code = code; headers = []; body = body })

    abbrev pub record_analysis : String → Fields → AnalysisOutput → W sv (Gate AnalyzedJob)
    record_analysis job_id job output = do
      command (write_job sv job_id (analysis_updates sv output now))
      append_audit_event sv audit_stream_key (record {
        actor = "api";
        action = "job_analyzed";
        tenant_id = some tenant_id;
        job_id = some job_id;
        metadata =
            ("provider", text (provider_name output.provider))
            ∷ ("confidence", text (confidence_name output.analysis.confidence))
            ∷ ("summary", text (first_units 120 output.analysis.summary))
            ∷ ("fallbackReason", text_or_null output.fallback_reason)
            ∷ trace
            ∷ [];
      })
      pure (passes (record { job_id = job_id; status = job "status"; output = output }) [])

    abbrev pub analyze : String → Fields → W sv (Gate AnalyzedJob)
    analyze job_id job =
        if is_own tenant_id job
        then (do
          output ← lifted (
              generate_execution_analysis schema_error decode clock respond
                (analysis_input sv max_source_chars job) config)
          record_analysis job_id job output)
        else pure (refused 404 (("error", text "not_found") ∷ trace ∷ []))

    -- The id is what getJobIdParam finds in the path.
    unfoldable pub analyze_execution : Option String → W sv (Gate AnalyzedJob)
    analyze_execution none = pure (
        refused 400
          (("error", text "validation_error") ∷ trace ∷ ("reason", text "missing_job_id") ∷ []))
    analyze_execution (some job_id) = do
      job ← remote (λ s. (λ f. sv.hashes.hget (redis_job_key job_id) f s.hashes, s))
      analyze job_id job
