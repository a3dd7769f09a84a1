-- ===== src/Api/Analysis/Retry.antt =====
-- services/api/src/analysis.ts: generateExecutionAnalysis. What comes of each attempt to ask the
-- model is given by the number of the attempt.
use cloud_code_execution_eng.Prelude.{
  ℕ, zero, suc, ◌+◌, ◌*◌, String, Option, none, some, max, ltb, if◌then◌else◌, trim, first_units,
}
use cloud_code_execution_eng.Effect.{Result, ok, err}
use cloud_code_execution_eng.Effect.Fallible.{◌>>=◌}
use cloud_code_execution_eng.Common.Analysis.{ExecutionAnalysis, is_filled}
use cloud_code_execution_eng.Api.Analysis.{
  AnalysisInput, by_heuristic, by_openai, AnalysisOutput, AiProvider, no_provider, openai,
  AnalysisRuntimeConfig,
}
use cloud_code_execution_eng.Api.Analysis.Model.{
  Decoded, ChatResponse, generate_openai_execution_analysis,
}
use cloud_code_execution_eng.Api.Analysis.Heuristic.{generate_heuristic_execution_analysis}

-- How often the model was asked, and how long the code slept in between.
pub record Effort : Type 0 where
  pub calls : ℕ
  pub slept_ms : ℕ

pub data LoopEnd : Type 0 where
  found : ExecutionAnalysis → LoopEnd
  gave_up : Option String → LoopEnd

-- The sleep after an attempt that failed: the last has none.
abbrev pub sleeps : ℕ → ℕ → ℕ → ℕ
sleeps attempts retry_backoff_ms attempt =
    if ltb attempt attempts then retry_backoff_ms * attempt else 0

module _ (attempts retry_backoff_ms : ℕ) (ask : ℕ → Result ExecutionAnalysis) where
  -- The loop from `attempt` on, with so many rounds left.
  unfoldable pub ask_again : ℕ → ℕ → Option String → Effort → LoopEnd × Effort
  ask_again zero attempt last_error effort = (gave_up last_error, effort)
  ask_again (suc left) attempt last_error effort = elim (ask attempt) [
    | ok analysis ↦ (found analysis, record effort { calls = effort.calls + 1 })
    | err message ↦ ask_again left (attempt + 1) (some (first_units 180 message)) (record {
      calls = effort.calls + 1;
      slept_ms = effort.slept_ms + sleeps attempts retry_backoff_ms attempt;
    })
  ]

abbrev pub fallback_reason : Option String → String
fallback_reason none = "openai_unknown_failure"
fallback_reason (some e) = if is_filled e then e else "openai_unknown_failure"

abbrev pub no_effort : Effort
no_effort = record { calls = 0; slept_ms = 0 }

abbrev pub by_heuristic_for : String → Effort → ExecutionAnalysis → Result (AnalysisOutput × Effort)
by_heuristic_for reason effort heuristic = ok (
  record { analysis = heuristic; provider = by_heuristic; fallback_reason = some reason },
  effort,
)

abbrev pub settle : ExecutionAnalysis → LoopEnd × Effort → Result (AnalysisOutput × Effort)
settle heuristic (found analysis, effort) =
    ok (record { analysis = analysis; provider = by_openai; fallback_reason = none }, effort)
settle heuristic (gave_up last_error, effort) =
    by_heuristic_for (fallback_reason last_error) effort heuristic

abbrev pub trimmed : Option String → String
trimmed none = ""
trimmed (some key) = trim key

-- `clock` is read once for the heuristic, as number 0, and once for each answer of the model.
module _ (schema_error : ExecutionAnalysis → String) (decode : String → Result Decoded)
    (clock : ℕ → String) (respond : String → ℕ → Result ChatResponse) where
  abbrev pub ask : String → ℕ → Result ExecutionAnalysis
  ask key attempt =
      generate_openai_execution_analysis schema_error decode (clock attempt) (respond key attempt)

  abbrev pub with_key :
      String → AnalysisRuntimeConfig → ExecutionAnalysis → Result (AnalysisOutput × Effort)
  with_key key config heuristic =
      if is_filled key
      then settle heuristic (
          ask_again (max 1 (config.retries + 1)) config.retry_backoff_ms (ask key)
            (max 1 (config.retries + 1)) 1 none no_effort)
      else by_heuristic_for "missing_openai_api_key" no_effort heuristic

  abbrev pub by_provider :
      AiProvider → AnalysisRuntimeConfig → ExecutionAnalysis → Result (AnalysisOutput × Effort)
  by_provider no_provider config heuristic =
      by_heuristic_for "ai_provider_disabled" no_effort heuristic
  by_provider openai config heuristic = with_key (trimmed config.openai_api_key) config heuristic

  -- The output, and what it took.
  unfoldable pub generate_execution_analysis :
      AnalysisInput → AnalysisRuntimeConfig → Result (AnalysisOutput × Effort)
  generate_execution_analysis input config =
      generate_heuristic_execution_analysis (clock 0) schema_error input
      >>= by_provider config.provider config
