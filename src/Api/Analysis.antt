-- ===== src/Api/Analysis.antt =====
-- services/api/src/analysis.ts: what is known of an execution, and what is said about it.
pub mod Signs
pub mod Heuristic
pub mod Verdicts
pub mod Request
pub mod Model
pub mod Retry
pub mod Answers
pub mod Outcome
use cloud_code_execution_eng.Prelude.{ℕ, String, Option, none, some}
use cloud_code_execution_eng.Common.Jobs.{SupportedLanguage, ExecutionResult}
use cloud_code_execution_eng.Common.Analysis.{ExecutionAnalysis}

-- The part of a job's request that is analyzed.
pub record AnalysisRequest : Type 0 where
  pub language : SupportedLanguage
  pub source_code : String
  pub timeout_ms : ℕ
  pub memory_mb : ℕ
  pub cpu_millicores : ℕ

pub record AnalysisInput : Type 0 where
  pub status : String
  pub request : AnalysisRequest
  pub result : Option ExecutionResult
  pub error : Option String

pub data Provider : Type 0 where
  by_heuristic by_openai : Provider

abbrev pub provider_name : Provider → String
provider_name by_heuristic = "heuristic"
provider_name by_openai = "openai"

pub record AnalysisOutput : Type 0 where
  pub analysis : ExecutionAnalysis
  pub provider : Provider
  pub fallback_reason : Option String

pub data AiProvider : Type 0 where
  no_provider openai : AiProvider

-- Which model is asked, and for how long, is left to the call.
pub record AnalysisRuntimeConfig : Type 0 where
  pub provider : AiProvider
  pub openai_api_key : Option String
  pub retries : ℕ
  pub retry_backoff_ms : ℕ
