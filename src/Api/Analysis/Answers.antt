-- ===== src/Api/Analysis/Answers.antt =====
-- When generateExecutionAnalysis of services/api/src/analysis.ts gives the model's analysis, how
-- often it asks and how long it sleeps.
use cloud_code_execution_eng.Prelude.{
  ℕ, zero, suc, ◌+◌, ◌*◌, ◌≤◌, ◌<◌, ◌≡◌, ◌⊎◌, refl, ap, ◌∙◌, lt→ltb, Bool-cases, ◌==◌, String, true,
  Option, some, arith, inl, inr, ltb, first_units,
}
use cloud_code_execution_eng.Effect.{Result, ok, err}
use cloud_code_execution_eng.Effect.Fallible.{Result-cases}
use cloud_code_execution_eng.Common.Analysis.{ExecutionAnalysis}
use cloud_code_execution_eng.Api.Analysis.Retry.{Effort, LoopEnd, found, gave_up, ask_again, sleeps}

abbrev pub Failed : (ℕ → Result ExecutionAnalysis) → ℕ → Type 0
Failed ask i = (message : String) × (ask i ≡ err message)

module _ (attempts backoff : ℕ) (ask : ℕ → Result ExecutionAnalysis) where
  -- The first answer from the attempt `start` on ends the loop, or the last error does.
  abbrev pub Ends : ℕ → LoopEnd → Effort → Type 0
  Ends start end effort =
      ((k : ℕ) × (a : ExecutionAnalysis) × (start ≤ k)
        × (k ≤ attempts)
        × ((i : ℕ) → start ≤ i → i < k → Failed ask i)
        × (ask k ≡ ok a)
        × (end ≡ found a)
        × (effort.calls ≡ k))
      ⊎ (((i : ℕ) → start ≤ i → i ≤ attempts → Failed ask i)
          × ((message : String) × (ask attempts ≡ err message)
              × (end ≡ gave_up (some (first_units 180 message))))
          × (effort.calls ≡ attempts))

  -- The sleeps grow by the backoff with each attempt but the last.
  abbrev pub Waited : Effort → Type 0
  Waited effort =
      2 * effort.slept_ms + backoff * effort.calls ≡ backoff * (effort.calls * effort.calls)

  after_failure : ℕ → Effort → Effort
  after_failure attempt effort = record {
    calls = effort.calls + 1;
    slept_ms = effort.slept_ms + sleeps attempts backoff attempt;
  }

  module _ (left attempt : ℕ) (last : Option String) (effort : Effort) where
    ask_again-found :
        (a : ExecutionAnalysis)
        → ask attempt ≡ ok a
        → ask_again attempts backoff ask (suc left) attempt last effort
          ≡ (found a, record effort { calls = effort.calls + 1 })
    unfolding ask_again
    ask_again-found a e = rw (ask_again, e) refl

    ask_again-failed :
        (m : String)
        → ask attempt ≡ err m
        → ask_again attempts backoff ask (suc left) attempt last effort
          ≡ ask_again attempts backoff ask left
              (attempt + 1)
              (some (first_units 180 m))
              (after_failure attempt effort)
    unfolding ask_again after_failure
    ask_again-failed m e = rw (ask_again, e) refl

  ask_again-end :
      (attempt : ℕ) (last : Option String) (effort : Effort)
      → ask_again attempts backoff ask zero attempt last effort ≡ (gave_up last, effort)
  unfolding ask_again
  ask_again-end attempt last effort = refl

  abbrev pub EndsAt : ℕ → LoopEnd × Effort → Type 0
  EndsAt start r = Ends start r.0 r.1 × Waited r.1

  Failed-before :
      (P : ℕ → Type 0) (start : ℕ) (m : String)
      → ask start ≡ err m
      → ((i : ℕ) → start + 1 ≤ i → P i → Failed ask i)
      → (i : ℕ) → start ≤ i
      → P i
      → Failed ask i
  Failed-before P start m e f i p q = elim (Bool-cases (i == start)) [
    | inl same ↦ let here : i ≡ start = ground arith in (m, rw here e)
    | inr other ↦ f i (ground arith) q
  ]

  Ends-before :
      (start : ℕ) (m : String) (end : LoopEnd) (effort : Effort)
      → ask start ≡ err m
      → Ends (start + 1) end effort
      → Ends start end effort
  Ends-before start m end effort e (inl (k, a, p, q, f, g, d, c)) =
      inl (k, a, omega arith, q, Failed-before (λ i. i < k) start m e f, g, d, c)
  Ends-before start m end effort e (inr (f, g, c)) =
      inr (Failed-before (λ i. i ≤ attempts) start m e f, g, c)

  only : (attempt i : ℕ) (m : String) → ask attempt ≡ err m → i ≡ attempt → Failed ask i
  only attempt i m e same = (m, rw same e)

  pub ask_again-EndsAt :
      (left attempt : ℕ) (last : Option String) (effort : Effort)
      → attempt + left ≡ attempts
      → effort.calls + 1 ≡ attempt
      → 2 * effort.slept_ms ≡ backoff * (effort.calls * effort.calls + effort.calls)
      → EndsAt attempt (ask_again attempts backoff ask (suc left) attempt last effort)
  unfolding after_failure
  ask_again-EndsAt zero attempt last effort h c s = elim (Result-cases (ask attempt)) [
    | inl (a, e) ↦ rw (ask_again-found zero attempt last effort a e) (
      inl (attempt, a, omega arith, omega arith, λ i p q. absurd (omega arith), e, refl, c),
      omega arith,
    )
    | inr (m, e) ↦
        let last_one : attempts ≡ attempt = omega arith in
        rw
          (
            ask_again-failed zero attempt last effort m e,
            ask_again-end (attempt + 1) (some (first_units 180 m)) (after_failure attempt effort),
          )
          (
            inr (
              λ i p q. only attempt i m e (omega arith),
              (m, ap ask last_one ∙ e, refl),
              omega arith,
            ),
            ground arith,
          )
  ]
  ask_again-EndsAt (suc left) attempt last effort h c s = elim (Result-cases (ask attempt)) [
    | inl (a, e) ↦ rw (ask_again-found (suc left) attempt last effort a e) (
      inl (attempt, a, omega arith, omega arith, λ i p q. absurd (omega arith), e, refl, c),
      omega arith,
    )
    | inr (m, e) ↦
        let goes_on : ltb attempt attempts ≡ true = lt→ltb attempt attempts (omega arith) in
        let r =
          ask_again-EndsAt left (attempt + 1) (some (first_units 180 m))
            (after_failure attempt effort) (omega arith) (omega arith)
            (rw goes_on (omega (arith, ap (λ n. backoff * n) c))) in
        rw (ask_again-failed (suc left) attempt last effort m e) (
          Ends-before attempt m
              (ask_again attempts backoff ask (suc left) (attempt + 1) (some (first_units 180 m))
                (after_failure attempt effort)).0
              (ask_again attempts backoff ask (suc left) (attempt + 1) (some (first_units 180 m))
                (after_failure attempt effort)).1
              e r.0,
          r.1,
        )
  ]
