-- ===== src/Api/Analysis/Request.antt =====
-- services/api/src/analysis.ts: what generateOpenAiExecutionAnalysis asks the chat endpoint. The
-- JSON of the message is a parameter; the timer is left out.
use Prim.Native.String.{◌++◌}
use cloud_code_execution_eng.Prelude.{ℕ, String, Option, List, [], ◌∷◌}
use cloud_code_execution_eng.Common.Jobs.{ExecutionResult, language_name}
use cloud_code_execution_eng.Api.Analysis.{AnalysisInput}

pub record ChatMessage : Type 0 where
  pub role : String
  pub content : String

pub record ChatRequest : Type 0 where
  pub url : String
  pub headers : List (String × String)
  pub model : String
  pub temperature : String
  pub response_format : String
  pub messages : List ChatMessage

-- The object that the second message holds.
pub record Prompt : Type 0 where
  pub status : String
  pub language : String
  pub timeout_ms : ℕ
  pub memory_mb : ℕ
  pub cpu_millicores : ℕ
  pub source_code : String
  pub result : Option ExecutionResult
  pub error : Option String

abbrev pub prompt_of : AnalysisInput → Prompt
prompt_of input = record {
  status = input.status;
  language = language_name input.request.language;
  timeout_ms = input.request.timeout_ms;
  memory_mb = input.request.memory_mb;
  cpu_millicores = input.request.cpu_millicores;
  source_code = input.request.source_code;
  result = input.result;
  error = input.error;
}

abbrev pub system_message : ChatMessage
system_message = record {
  role = "system";
  content =
      "You analyze sandboxed code execution results. Return only JSON with keys: summary, explanation, suggestions (array of short actionable strings), confidence (low|medium|high). Keep it factual and concise.";
}

unfoldable pub chat_request : (Prompt → String) → String → String → AnalysisInput → ChatRequest
chat_request stringify api_key model input = record {
  url = "https://api.openai.com/v1/chat/completions";
  headers = ("Authorization", "Bearer " ++ api_key) ∷ ("content-type", "application/json") ∷ [];
  model = model;
  temperature = "0.2";
  response_format = "json_object";
  messages = system_message ∷ record { role = "user"; content = stringify (prompt_of input) } ∷ [];
}
