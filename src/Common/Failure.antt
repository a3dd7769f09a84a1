-- ===== src/Common/Failure.antt =====
-- packages/common/src/index.ts: classifyFailureCategory. `toLowerCase` of JavaScript follows the
-- tables of Unicode, so it is a parameter.
use Prim.Native.String.{◌++◌}
use cloud_code_execution_eng.Prelude.{
  ◌≡◌, ◌↔◌, String, Bool, true, false, Option, none, some, List, [], ◌∷◌, or_else, if◌then◌else◌,
  matches_any, arith,
}
use cloud_code_execution_eng.Common.Jobs.{ExecutionResult, ResultStatus}

pub data FailureCategory : Type 0 where
  no_failure timeout infrastructure user_code runtime : FailureCategory

abbrev pub category_name : FailureCategory → String
category_name no_failure = "none"
category_name timeout = "timeout"
category_name infrastructure = "infrastructure"
category_name user_code = "user_code"
category_name runtime = "runtime"

abbrev infrastructure_signs : List String
infrastructure_signs =
    "eacces" ∷ "docker daemon" ∷ "oci runtime" ∷ "containerd" ∷ "dispatch failure"
    ∷ "queue unavailable" ∷ "network error" ∷ []

abbrev user_code_signs : List String
user_code_signs =
    "syntaxerror" ∷ "traceback" ∷ "referenceerror" ∷ "nameerror" ∷ "exception in thread" ∷ "javac"
    ∷ []

stderr_of : Option ExecutionResult → String
stderr_of none = ""
stderr_of (some r) = r.stderr

runner_error_of : Option ExecutionResult → String
runner_error_of none = ""
runner_error_of (some r) = or_else r.runner_error ""

module _ (to_lower_case : String → String) where
  combined : Option ExecutionResult → Option String → String
  combined result error_message =
      to_lower_case (
        stderr_of result
        ++ ("\n" ++ (runner_error_of result ++ ("\n" ++ or_else error_message ""))))

  by_text : String → FailureCategory
  by_text text =
      if matches_any text infrastructure_signs
      then infrastructure
      else if matches_any text user_code_signs
      then user_code
      else runtime

  abbrev unless_timed_out : Bool → FailureCategory → FailureCategory
  unless_timed_out true c = timeout
  unless_timed_out false c = c

  abbrev by_status : ResultStatus → Bool → FailureCategory → FailureCategory
  by_status ResultStatus.succeeded timed_out c = no_failure
  by_status ResultStatus.failed timed_out c = unless_timed_out timed_out c

  by_result : Option ExecutionResult → FailureCategory → FailureCategory
  by_result none c = c
  by_result (some r) c = by_status r.status r.timed_out c

  unfoldable pub classify_failure_category :
      Option ExecutionResult → Option String → FailureCategory
  unfolding combined by_text by_result stderr_of runner_error_of
  classify_failure_category result error_message =
      by_result result (by_text (combined result error_message))

  -- The category of a result is "none" exactly when it succeeded and "timeout" exactly when it
  -- failed by the time limit.
  pub classify_failure_category_status :
      (r : ExecutionResult) (error_message : Option String)
      → ((classify_failure_category (some r) error_message ≡ no_failure)
          ↔ (r.status ≡ ResultStatus.succeeded))
        × ((classify_failure_category (some r) error_message ≡ timeout)
            ↔ ((r.status ≡ ResultStatus.failed) × (r.timed_out ≡ true)))
  unfolding classify_failure_category
  classify_failure_category_status r e = ground arith
