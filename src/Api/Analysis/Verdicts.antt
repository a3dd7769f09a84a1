-- ===== src/Api/Analysis/Verdicts.antt =====
-- What the heuristic of services/api/src/analysis.ts says, for every execution.
use Prim.Native.Char.{Char}
use Prim.Native.String.{◌++◌}
use Prim.Native.String.append
use cloud_code_execution_eng.Prelude.{
  [], ◌∷◌, show, ne_of_test, ap, ◌∙◌, ℕ, ◌≡◌, ◌↔◌, refl, String, Bool, true, false, Option, none,
  some, arith, Bool-cases, inl, inr, List, eq_iff,
}
use cloud_code_execution_eng.Effect.{ok}
use cloud_code_execution_eng.Common.Jobs.{
  SupportedLanguage, java, python, ExecutionResult, ResultStatus,
}
use cloud_code_execution_eng.Common.Failure.{classify_failure_category, no_failure, timeout}
use cloud_code_execution_eng.Common.Analysis.{
  ExecutionAnalysis, is_filled, fits, fits-IsAnalysis, IsAnalysis, parse_analysis,
}
use cloud_code_execution_eng.Api.Analysis.{AnalysisInput}
use cloud_code_execution_eng.Api.Analysis.Signs.{has_endless_loop, has_code_error}
use cloud_code_execution_eng.Api.Analysis.Heuristic.{
  is_unfinished, draft, generate_heuristic_execution_analysis, base_suggestions, succeeded,
  timed_out, code_error, other_failure, failed, in_progress, metadata_missing, by_result, by_status,
}

is_filled-cons : (c : Char) (s : String) → is_filled (String.◌∷◌ c s) ≡ true
is_filled-cons c s = elim (Bool-cases (is_filled (String.◌∷◌ c s))) [
  | inl e ↦ e
  | inr e ↦
      let empty : String.◌∷◌ c s ≡ "" = ground (arith, eq_iff (String.◌∷◌ c s) "") in
      absurd (cc empty)
]

is_filled-append : (s t : String) → is_filled s ≡ true → is_filled (s ++ t) ≡ true
is_filled-append String.[] t h = absurd (ground arith)
is_filled-append (String.◌∷◌ c s) t h = rw (append.cons c s t) (is_filled-cons c (s ++ t))

-- The suggestions to start with are two, and say something.
base_suggestions-filled :
    (language : SupportedLanguage)
    → (a : String) × (b : String) × (base_suggestions language ≡ a ∷ b ∷ [])
      × (is_filled a ≡ true)
      × (is_filled b ≡ true)
unfolding base_suggestions
base_suggestions-filled java = (_, _, refl, refl, refl)
base_suggestions-filled python = (_, _, refl, refl, refl)
base_suggestions-filled _ = (_, _, refl, refl, refl)

module _ (now : String) where
  module _ (a b : String) (p : is_filled a ≡ true) (q : is_filled b ≡ true) where
    succeeded-fits :
        (source stdout : String) → fits (succeeded now source stdout (a ∷ b ∷ [])) ≡ true
    unfolding fits succeeded
    succeeded-fits source stdout = ground arith

    timed_out-fits :
        (source : String) (timeout_ms : ℕ)
        → fits (timed_out now source timeout_ms (a ∷ b ∷ [])) ≡ true
    unfolding fits timed_out
    timed_out-fits source timeout_ms =
        let advice =
          is_filled-append "The current timeout is "
            (show timeout_ms ++ "ms; increase it only when workload characteristics justify it.")
            refl in
        elim (Bool-cases (has_endless_loop source)) [
          | inl e ↦ rw (e, p, q, advice) refl
          | inr e ↦ rw (e, p, q, advice) refl
        ]

    other_failure-fits :
        (error : Option String) → fits (other_failure now error (a ∷ b ∷ [])) ≡ true
    unfolding fits other_failure
    other_failure-fits none = ground arith
    other_failure-fits (some e) = ground arith

    code_error-fits : fits (code_error now (a ∷ b ∷ [])) ≡ true
    unfolding fits code_error
    code_error-fits = ground arith

    failed-fits :
        (input : AnalysisInput) (result : ExecutionResult)
        → fits (failed now input result (a ∷ b ∷ [])) ≡ true
    unfolding failed
    failed-fits input result = ground (
      arith,
      timed_out-fits input.request.source_code input.request.timeout_ms,
      other_failure-fits input.error,
      code_error-fits,
    )

  by_result-fits :
      (o : Option ExecutionResult) (input : AnalysisInput) → fits (by_result now o input) ≡ true
  unfolding fits in_progress metadata_missing
  by_result-fits none input = elim (Bool-cases (is_unfinished input.status)) [
    | inl e ↦ rw e refl
    | inr e ↦ rw e refl
  ]
  by_result-fits (some r) input =
      let (a, b, e, p, q) = base_suggestions-filled input.request.language in
      rw e (
        ground (
          arith,
          succeeded-fits a b p q input.request.source_code r.stdout,
          failed-fits a b p q input r,
        ))

  draft-fits : (input : AnalysisInput) → fits (draft now input) ≡ true
  unfolding draft
  draft-fits input = by_result-fits input.result input

  -- The heuristic never throws, whatever the job.
  pub heuristic_lem :
      (schema_error : ExecutionAnalysis → String) (input : AnalysisInput)
      → generate_heuristic_execution_analysis now schema_error input ≡ ok (draft now input)
  unfolding generate_heuristic_execution_analysis parse_analysis
  heuristic_lem schema_error input = rw (draft-fits input) refl

  pub draft-IsAnalysis : (input : AnalysisInput) → IsAnalysis (draft now input)
  draft-IsAnalysis input = fits-IsAnalysis (draft now input) (draft-fits input)

  -- The category that a summary stands for, on an execution with a result.
  summary_of : Bool → Bool → ResultStatus → String
  summary_of timed_out has_code_error ResultStatus.succeeded = "Execution succeeded"
  summary_of true has_code_error ResultStatus.failed = "Execution timed out"
  summary_of false true ResultStatus.failed = "Execution failed due to code error"
  summary_of false false ResultStatus.failed = "Execution failed"

  failed-summary :
      (input : AnalysisInput) (r : ExecutionResult) (suggestions : List String)
      → (failed now input r suggestions).summary
        ≡ summary_of r.timed_out (has_code_error r.stderr) ResultStatus.failed
  unfolding failed timed_out code_error other_failure summary_of
  failed-summary input r suggestions = elim (Bool-cases r.timed_out) [
    | inl e ↦ rw e refl
    | inr e ↦ elim (Bool-cases (has_code_error r.stderr)) [
      | inl d ↦ rw (e, d) refl
      | inr d ↦ rw (e, d) refl
    ]
  ]

  by_status-summary :
      (status : ResultStatus) (input : AnalysisInput) (r : ExecutionResult) (ss : List String)
      → (by_status now status input r ss).summary
        ≡ summary_of r.timed_out (has_code_error r.stderr) status
  unfolding succeeded summary_of
  by_status-summary ResultStatus.succeeded input r ss = refl
  by_status-summary ResultStatus.failed input r ss = failed-summary input r ss

  -- On a job with a result, the heuristic and classifyFailureCategory agree on which executions
  -- succeeded and which ran out of time.
  pub draft-classify_failure_category :
      (to_lower_case : String → String) (input : AnalysisInput) (r : ExecutionResult)
      → input.result ≡ some r
      → (((draft now input).summary ≡ "Execution succeeded")
          ↔ (classify_failure_category to_lower_case (some r) input.error ≡ no_failure))
        × (((draft now input).summary ≡ "Execution timed out")
            ↔ (classify_failure_category to_lower_case (some r) input.error ≡ timeout))
  unfolding draft classify_failure_category summary_of
  draft-classify_failure_category to_lower_case input r h =
      let said : (draft now input).summary
          ≡ summary_of r.timed_out (has_code_error r.stderr) r.status =
        ap (λ o. (by_result now o input).summary) h
        ∙ by_status-summary r.status input r (base_suggestions input.request.language) in
      rw said (
        ground (
          arith,
          ne_of_test "Execution failed" "Execution succeeded" refl,
          ne_of_test "Execution timed out" "Execution succeeded" refl,
          ne_of_test "Execution failed due to code error" "Execution succeeded" refl,
          ne_of_test "Execution failed" "Execution timed out" refl,
          ne_of_test "Execution failed due to code error" "Execution timed out" refl,
        ))
