-- ===== src/Api/Analysis/Heuristic.antt =====
-- services/api/src/analysis.ts: generateHeuristicExecutionAnalysis.
use Prim.Native.String.{◌++◌}
use mathlib.Core.List.{◌++◌ as join}
use cloud_code_execution_eng.Prelude.{
  ℕ, String, Bool, true, false, Option, none, some, List, [], ◌∷◌, any, take, show, ltb, ◌===◌,
  if◌then◌else◌, trim,
}
use cloud_code_execution_eng.Effect.{Result}
use cloud_code_execution_eng.Common.Jobs.{
  SupportedLanguage, java, python, ExecutionResult, ResultStatus,
}
use cloud_code_execution_eng.Common.Analysis.{
  Confidence, low, medium, high, ExecutionAnalysis, is_filled, parse_analysis,
}
use cloud_code_execution_eng.Api.Analysis.{AnalysisInput}
use cloud_code_execution_eng.Api.Analysis.Signs.{has_endless_loop, has_code_error, non_empty_lines}

unfoldable pub base_suggestions : SupportedLanguage → List String
base_suggestions java =
    "Keep `public class Main` as the entry point so compilation is deterministic."
    ∷ "Wrap risky logic in try/catch and print clear error messages for failed branches." ∷ []
base_suggestions python =
    "Guard execution with `if __name__ == \"__main__\":` for predictable script behavior."
    ∷ "Add explicit exception handling to surface readable errors to users." ∷ []
base_suggestions _ =
    "Validate input before execution and fail fast on invalid data."
    ∷ "Prefer small pure functions so behavior is easier to test and reason about." ∷ []

abbrev unfinished_statuses : List String
unfinished_statuses = "queued" ∷ "retrying" ∷ "running" ∷ "dispatched" ∷ []

abbrev pub is_unfinished : String → Bool
is_unfinished status = any (λ s. s === status) unfinished_statuses

-- `if (test) { suggestions.push(suggestion) }`.
abbrev pushed_if : Bool → String → List String
pushed_if true suggestion = suggestion ∷ []
pushed_if false suggestion = []

abbrev has_error : Option String → Bool
has_error none = false
has_error (some e) = is_filled e

module _ (now : String) where
  -- What stands in an analysis of the heuristic.
  abbrev says : String → String → List String → Confidence → ExecutionAnalysis
  says summary explanation suggestions confidence = record {
    summary = summary;
    explanation = explanation;
    suggestions = suggestions;
    confidence = confidence;
    generated_at = now;
  }

  unfoldable pub in_progress : ExecutionAnalysis
  in_progress =
      says "Execution in progress"
        "The job has not reached a terminal state yet. Poll status until it becomes `succeeded` or `failed` before drawing conclusions."
        ("Continue polling this job and only analyze output after completion."
          ∷ "Use queue depth/latency metrics to tune worker concurrency under load." ∷ [])
        high

  unfoldable pub metadata_missing : ExecutionAnalysis
  metadata_missing =
      says "Execution metadata missing"
        "No structured execution result was found for this job. This typically means the runner crashed or the result payload was not persisted."
        ("Inspect worker and runner logs for transport or serialization errors."
          ∷ "Keep retries enabled so transient runner failures recover automatically." ∷ [])
        low

  unfoldable pub succeeded : String → String → List String → ExecutionAnalysis
  succeeded source stdout suggestions =
      says "Execution succeeded"
        "The code finished within configured sandbox limits and returned a successful exit code. Captured output is available in job history."
        (take 5 (
          join suggestions (
            join
              (pushed_if (trim stdout === "")
                "Print structured output (JSON or clear labels) to make results easier to consume.")
              (pushed_if (ltb 120 (non_empty_lines source))
                "Split large scripts into smaller modules to improve readability and maintainability."))))
        high

  unfoldable pub timed_out : String → ℕ → List String → ExecutionAnalysis
  timed_out source timeout_ms suggestions =
      says "Execution timed out"
        "The process exceeded its wall-clock budget and was forcefully terminated by the sandbox timeout guard."
        (take 5 (
          join suggestions (
            join
              (pushed_if (has_endless_loop source)
                "Avoid unbounded loops; add a clear exit condition or max-iteration guard.")
              (("The current timeout is "
                  ++ (show timeout_ms
                      ++ "ms; increase it only when workload characteristics justify it."))
                ∷ []))))
        high

  unfoldable pub code_error : List String → ExecutionAnalysis
  code_error suggestions =
      says "Execution failed due to code error"
        "The failure signal indicates a user-code issue (syntax or runtime exception) rather than an infrastructure dispatch problem."
        (take 5 (
          join suggestions (
            "Fix the syntax/runtime error shown in stderr, then rerun the same input to verify behavior."
            ∷ [])))
        high

  unfoldable pub other_failure : Option String → List String → ExecutionAnalysis
  other_failure error suggestions =
      says "Execution failed"
        "The job terminated with a non-zero exit state. Review `stderr`, `exitCode`, and runtime limits to determine whether the failure is deterministic code behavior or an environmental issue."
        (take 5 (
          join suggestions (
            pushed_if (has_error error)
              "Treat this as an infrastructure failure path and rely on retries/backoff for transient runner instability.")))
        (if has_error error then medium else low)

  unfoldable pub failed : AnalysisInput → ExecutionResult → List String → ExecutionAnalysis
  failed input result suggestions =
      if result.timed_out
      then timed_out input.request.source_code input.request.timeout_ms suggestions
      else if has_code_error result.stderr
      then code_error suggestions
      else other_failure input.error suggestions

  abbrev pub by_status :
      ResultStatus → AnalysisInput → ExecutionResult → List String → ExecutionAnalysis
  by_status ResultStatus.succeeded input result suggestions =
      succeeded input.request.source_code result.stdout suggestions
  by_status ResultStatus.failed input result suggestions = failed input result suggestions

  abbrev pub by_result : Option ExecutionResult → AnalysisInput → ExecutionAnalysis
  by_result none input = if is_unfinished input.status then in_progress else metadata_missing
  by_result (some result) input =
      by_status result.status input result (base_suggestions input.request.language)

  -- What the heuristic says before the schema reads it.
  unfoldable pub draft : AnalysisInput → ExecutionAnalysis
  draft input = by_result input.result input

  unfoldable pub generate_heuristic_execution_analysis :
      (ExecutionAnalysis → String) → AnalysisInput → Result ExecutionAnalysis
  unfolding draft
  generate_heuristic_execution_analysis schema_error input =
      parse_analysis schema_error (draft input)
