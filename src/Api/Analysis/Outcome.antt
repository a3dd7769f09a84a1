-- ===== src/Api/Analysis/Outcome.antt =====
-- What generateExecutionAnalysis of services/api/src/analysis.ts gives when the model is asked.
use cloud_code_execution_eng.Prelude.{
  ℕ, suc, subst, ltb, ltb→lt, Bool-cases, ◌+◌, ◌≤◌, ◌<◌, ◌≡◌, ◌⊎◌, refl, String, true, none, max,
  arith, inl, inr, ap, ◌∙◌,
}
use cloud_code_execution_eng.Effect.{Result, ok}
use cloud_code_execution_eng.Common.Analysis.{ExecutionAnalysis, is_filled, IsAnalysis}
use cloud_code_execution_eng.Api.Analysis.{
  AnalysisInput, by_heuristic, by_openai, AnalysisOutput, AiProvider, no_provider, openai,
  AnalysisRuntimeConfig,
}
use cloud_code_execution_eng.Api.Analysis.Heuristic.{draft}
use cloud_code_execution_eng.Api.Analysis.Verdicts.{heuristic_lem, draft-IsAnalysis}
use cloud_code_execution_eng.Api.Analysis.Model.{
  Decoded, ChatResponse, generate_openai_execution_analysis-IsAnalysis,
}
use cloud_code_execution_eng.Api.Analysis.Retry.{
  Effort, LoopEnd, found, gave_up, ask_again, ask, trimmed, settle, by_heuristic_for,
  fallback_reason, no_effort, generate_execution_analysis,
}
use cloud_code_execution_eng.Api.Analysis.Answers.{Failed, Ends, Waited, ask_again-EndsAt}

by_provider-cases : (p : AiProvider) → (p ≡ no_provider) ⊎ (p ≡ openai)
by_provider-cases no_provider = inl refl
by_provider-cases openai = inr refl

module _ (schema_error : ExecutionAnalysis → String) (decode : String → Result Decoded)
    (clock : ℕ → String) (respond : String → ℕ → Result ChatResponse) (input : AnalysisInput)
    (config : AnalysisRuntimeConfig) where
  abbrev pub asks : ℕ → Result ExecutionAnalysis
  asks = ask schema_error decode clock respond (trimmed config.openai_api_key)

  -- The result is the first answer of the model within the bound on the attempts; if there is none,
  -- it is the heuristic's, and the model was asked as often as the bound says.
  abbrev pub GivesFirst : AnalysisOutput → Effort → Type 0
  GivesFirst output effort =
      ((k : ℕ) × (1 ≤ k)
        × (k ≤ config.retries + 1)
        × ((i : ℕ) → 1 ≤ i → i < k → Failed asks i)
        × (asks k ≡ ok output.analysis)
        × (output.provider ≡ by_openai)
        × (effort.calls ≡ k))
      ⊎ (((i : ℕ) → 1 ≤ i → i ≤ config.retries + 1 → Failed asks i)
          × (output.analysis ≡ draft (clock 0) input)
          × (output.provider ≡ by_heuristic)
          × (effort.calls ≡ config.retries + 1))

  -- The loop in so many rounds.
  loop : ℕ → LoopEnd × Effort
  loop rounds = ask_again (config.retries + 1) config.retry_backoff_ms asks rounds 1 none no_effort

  settled : Result (AnalysisOutput × Effort)
  settled = settle (draft (clock 0) input) (loop (suc config.retries))

  bound : max 1 (config.retries + 1) ≡ config.retries + 1
  bound = omega arith

  rounds : config.retries + 1 ≡ suc config.retries
  rounds = omega arith

  generates :
      config.provider ≡ openai
      → is_filled (trimmed config.openai_api_key) ≡ true
      → generate_execution_analysis schema_error decode clock respond input config ≡ settled
  unfolding generate_execution_analysis settled loop
  generates provided keyed =
      rw (heuristic_lem (clock 0) schema_error input, provided, keyed, bound)
        (ap (λ n. settle (draft (clock 0) input) (loop n)) rounds)

  GivesFirst-found :
      (end : LoopEnd) (effort : Effort)
      → Ends (config.retries + 1) config.retry_backoff_ms asks 1 end effort
      → (output : AnalysisOutput) × (settle (draft (clock 0) input) (end, effort)
          ≡ ok (output, effort))
        × GivesFirst output effort
  GivesFirst-found (found b) effort (inl (k, a, p, q, f, g, d, c)) =
      let same : a ≡ b = cc in (_, refl, inl (k, p, q, f, g ∙ ap (λ x. ok x) same, refl, c))
  GivesFirst-found (gave_up m) effort (inl (k, a, p, q, f, g, d, c)) = cc
  GivesFirst-found (found b) effort (inr (f, (m, g, d), c)) = cc
  GivesFirst-found (gave_up m) effort (inr (f, g, c)) = (_, refl, inr (f, refl, refl, c))

  Failed-not : (i : ℕ) (a : ExecutionAnalysis) → asks i ≡ ok a → Failed asks i → ⊥
  Failed-not i a answered (m, e) = cc

  GivesFirst-answered :
      (k : ℕ) (a : ExecutionAnalysis)
      → 1 ≤ k
      → k ≤ config.retries + 1
      → asks k ≡ ok a
      → (output : AnalysisOutput) (effort : Effort) → GivesFirst output effort
      → (output.provider ≡ by_openai) × (effort.calls ≤ k)
  GivesFirst-answered k a p q answered output effort (inl (j, _, _, before, _, by, c)) =
      elim (Bool-cases (ltb k j)) [
        | inl early ↦ absurd (Failed-not k a answered (before k p (ltb→lt k j early)))
        | inr late ↦ (by, ground arith)
      ]
  GivesFirst-answered k a p q answered output effort (inr (all, _, _, _)) =
      absurd (Failed-not k a answered (all k p q))

  -- When the model is asked, the output is its first answer that the schema accepts, provided that
  -- it comes with one of the first `retries + 1` attempts; otherwise it is the heuristic's. No
  -- attempt is made after that answer, and the sleeps add up to the backoff times 1 + 2 + … up to
  -- the number of attempts less one.
  pub generate_execution_analysis-GivesFirst :
      config.provider ≡ openai
      → is_filled (trimmed config.openai_api_key) ≡ true
      → (output : AnalysisOutput) × (effort : Effort) × (generate_execution_analysis schema_error
            decode clock respond input config
          ≡ ok (output, effort))
        × GivesFirst output effort
        × Waited (config.retries + 1) config.retry_backoff_ms asks effort
  unfolding settled loop
  generate_execution_analysis-GivesFirst provided keyed =
      let ended =
        ask_again-EndsAt (config.retries + 1) config.retry_backoff_ms asks config.retries 1 none
          no_effort (omega arith) (omega arith) (omega arith) in
      let given =
        GivesFirst-found (loop (suc config.retries)).0 (loop (suc config.retries)).1 ended.0 in
      (given.0, (loop (suc config.retries)).1, generates provided keyed ∙ given.1, given.2, ended.1)

  -- If the model answers one of the first `retries + 1` attempts, the output is the model's, found no
  -- later than at that attempt.
  pub generate_execution_analysis-answered :
      config.provider ≡ openai
      → is_filled (trimmed config.openai_api_key) ≡ true
      → (k : ℕ) (a : ExecutionAnalysis) → 1 ≤ k
      → k ≤ config.retries + 1
      → asks k ≡ ok a
      → (output : AnalysisOutput) × (effort : Effort) × (generate_execution_analysis schema_error
            decode clock respond input config
          ≡ ok (output, effort))
        × (output.provider ≡ by_openai)
        × (effort.calls ≤ k)
  generate_execution_analysis-answered provided keyed k a p q answered =
      let (output, effort, e, first, waited) =
        generate_execution_analysis-GivesFirst provided keyed in
      let model = GivesFirst-answered k a p q answered output effort first in
      (output, effort, e, model.0, model.1)

  -- The result is an output whose analysis satisfies the schema.
  abbrev pub Gives : Result (AnalysisOutput × Effort) → Type 0
  Gives r =
      (output : AnalysisOutput) × (effort : Effort) × (r ≡ ok (output, effort))
      × IsAnalysis output.analysis

  by_heuristic-Gives :
      (reason : String) (effort : Effort)
      → Gives (by_heuristic_for reason effort (draft (clock 0) input))
  by_heuristic-Gives reason effort = (_, effort, refl, draft-IsAnalysis (clock 0) input)

  settled-Gives : Gives settled
  unfolding settled loop
  settled-Gives =
      settle-Gives (loop (suc config.retries)).0 (loop (suc config.retries)).1
        (ask_again-EndsAt (config.retries + 1) config.retry_backoff_ms asks config.retries 1 none
          no_effort (omega arith) (omega arith) (omega arith)).0
    where
      settle-Gives :
          (end : LoopEnd) (effort : Effort)
          → Ends (config.retries + 1) config.retry_backoff_ms asks 1 end effort
          → Gives (settle (draft (clock 0) input) (end, effort))
      settle-Gives (found b) effort (inl (k, a, _, _, _, g, d, _)) =
          let same : a ≡ b = cc in
          (
            _,
            effort,
            refl,
            subst (λ (x : ExecutionAnalysis). IsAnalysis x) same
                (generate_openai_execution_analysis-IsAnalysis schema_error decode (clock k) _ a g),
          )
      settle-Gives (gave_up m) effort (inl (_, _, _, _, _, _, d, _)) = cc
      settle-Gives (found b) effort (inr (_, (_, _, d), _)) = cc
      settle-Gives (gave_up m) effort (inr _) = by_heuristic-Gives (fallback_reason m) effort

  -- Whatever the job, the configuration and the replies of the model, no error is thrown, and the
  -- analysis satisfies the schema: it has a summary, an explanation and at most ten suggestions,
  -- none of them empty.
  pub generate_execution_analysis-IsAnalysis :
      (output : AnalysisOutput) × (effort : Effort) × (generate_execution_analysis schema_error
          decode clock respond input config
        ≡ ok (output, effort))
      × IsAnalysis output.analysis
  unfolding generate_execution_analysis
  generate_execution_analysis-IsAnalysis = elim (by_provider-cases config.provider) [
    | inl none_asked ↦
        rw (heuristic_lem (clock 0) schema_error input, none_asked)
          (by_heuristic-Gives "ai_provider_disabled" no_effort)
    | inr asked ↦ elim (Bool-cases (is_filled (trimmed config.openai_api_key))) [
      | inl keyed ↦
          let (output, effort, e, h) = settled-Gives in
          (output, effort, generates asked keyed ∙ e, h)
      | inr bare ↦
          rw (heuristic_lem (clock 0) schema_error input, asked, bare)
            (by_heuristic-Gives "missing_openai_api_key" no_effort)
    ]
  ]
