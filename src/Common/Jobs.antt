-- ===== src/Common/Jobs.antt =====
-- packages/common/src/index.ts: languages, job requests, statuses and results. A number of the wire
-- is a natural number: the schemas ask for integers, and no field may be negative.
use cloud_code_execution_eng.Prelude.{ℕ, String, Bool, Option, List, [], ◌∷◌}

pub data SupportedLanguage : Type 0 where
  java python go javascript typescript cpp csharp : SupportedLanguage

abbrev pub language_name : SupportedLanguage → String
language_name java = "java"
language_name python = "python"
language_name go = "go"
language_name javascript = "javascript"
language_name typescript = "typescript"
language_name cpp = "cpp"
language_name csharp = "csharp"

abbrev pub supported_languages : List SupportedLanguage
supported_languages = java ∷ python ∷ go ∷ javascript ∷ typescript ∷ cpp ∷ csharp ∷ []

pub record JobRequest : Type 0 where
  pub language : SupportedLanguage
  pub source_code : String
  pub stdin : String
  pub timeout_ms : ℕ
  pub memory_mb : ℕ
  pub cpu_millicores : ℕ

pub data JobStatus : Type 0 where
  queued retrying running dispatched succeeded failed : JobStatus

abbrev pub status_name : JobStatus → String
status_name queued = "queued"
status_name retrying = "retrying"
status_name running = "running"
status_name dispatched = "dispatched"
status_name succeeded = "succeeded"
status_name failed = "failed"

pub record QueueJobPayload : Type 0 where
  pub job_id : String
  pub tenant_id : String
  pub api_key_fingerprint : String
  pub trace_id : Option String
  pub request : JobRequest
  pub created_at : String

-- The status of a result is one of the last two of `JobStatus`.
pub data ResultStatus : Type 0 where
  succeeded failed : ResultStatus

abbrev pub result_status_name : ResultStatus → String
result_status_name succeeded = "succeeded"
result_status_name failed = "failed"

pub record ExecutionResult : Type 0 where
  pub status : ResultStatus
  pub exit_code : Option ℕ
  pub signal : Option String
  pub timed_out : Bool
  pub stdout : String
  pub stderr : String
  pub duration_ms : ℕ
  pub runner_error : Option String
