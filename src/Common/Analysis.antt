-- ===== src/Common/Analysis.antt =====
-- packages/common/src/index.ts: executionAnalysisSchema.
use cloud_code_execution_eng.Prelude.{
  ◌≤◌, ◌≡◌, ◌≢◌, String, Bool, true, ◌&&◌, not, List, [], ◌∷◌, length, All, subst, leb, ◌===◌,
  if◌then◌else◌, arith, Bool-cases, inl, inr, eq_iff,
}
use cloud_code_execution_eng.Effect.{Result, ok, err}

pub data Confidence : Type 0 where
  low medium high : Confidence

abbrev pub confidence_name : Confidence → String
confidence_name low = "low"
confidence_name medium = "medium"
confidence_name high = "high"

pub record ExecutionAnalysis : Type 0 where
  pub summary : String
  pub explanation : String
  pub suggestions : List String
  pub confidence : Confidence
  pub generated_at : String

-- `z.string().min(1)`, and the test of `filter(Boolean)`.
abbrev pub is_filled : String → Bool
is_filled s = not (s === "")

abbrev all_filled : List String → Bool
all_filled [] = true
all_filled (s ∷ ss) = is_filled s && all_filled ss

unfoldable pub fits : ExecutionAnalysis → Bool
fits a =
    is_filled a.summary
    && is_filled a.explanation
    && all_filled a.suggestions
    && leb (length a.suggestions) 10

-- `executionAnalysisSchema.parse(analysis)`; the message of a ZodError is the library's.
unfoldable pub parse_analysis :
    (ExecutionAnalysis → String) → ExecutionAnalysis → Result ExecutionAnalysis
unfolding fits
parse_analysis schema_error a = if fits a then ok a else err (schema_error a)

-- What the schema promises to who reads an analysis.
pub record IsAnalysis (a : ExecutionAnalysis) : Type 0 where
  pub summarized : a.summary ≢ ""
  pub explained : a.explanation ≢ ""
  pub filled : All (λ s. s ≢ "") a.suggestions
  pub few : length a.suggestions ≤ 10

is_filled-ne : (s : String) → is_filled s ≡ true → s ≢ ""
is_filled-ne s h = ground (arith, eq_iff s "")

all_filled-All : (ss : List String) → all_filled ss ≡ true → All (λ s. s ≢ "") ss
all_filled-All [] h = tt
all_filled-All (s ∷ ss) h = (ground (arith, is_filled-ne s), all_filled-All ss (ground arith))

pub fits-IsAnalysis : (a : ExecutionAnalysis) → fits a ≡ true → IsAnalysis a
unfolding fits
fits-IsAnalysis a h = record {
  summarized = is_filled-ne a.summary (ground arith);
  explained = is_filled-ne a.explanation (ground arith);
  filled = all_filled-All a.suggestions (ground arith);
  few = ground arith;
}

pub parse_analysis-IsAnalysis :
    (schema_error : ExecutionAnalysis → String) (a b : ExecutionAnalysis)
    → parse_analysis schema_error a ≡ ok b
    → IsAnalysis b
unfolding parse_analysis
parse_analysis-IsAnalysis e a b h = elim (Bool-cases (fits a)) [
  | inl y ↦
      let same : a ≡ b = ground arith in
      subst (λ (x : ExecutionAnalysis). IsAnalysis x) same (fits-IsAnalysis a y)
  | inr n ↦ absurd (ground arith)
]
