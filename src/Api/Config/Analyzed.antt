-- ===== src/Api/Config/Analyzed.antt =====
-- What an accepted configuration of services/api/src/config.ts means for the analysis of
-- services/api/src/analysis.ts.
use cloud_code_execution_eng.Prelude.{
  ℕ, zero, suc, subst, ◌+◌, ◌*◌, ◌≤◌, ◌≡◌, ◌⊎◌, refl, String, Bool, true, false, ◌&&◌, ◌||◌, Option,
  none, some, leb, ◌===◌, trim, arith, Bool-cases, inl, inr,
}
use cloud_code_execution_eng.Effect.{Result, ok, err}
use cloud_code_execution_eng.Effect.Fallible.{bind-eq-ok, ok-injective}
use cloud_code_execution_eng.Common.Analysis.{ExecutionAnalysis, is_filled}
use cloud_code_execution_eng.Common.Schema.{units}
use cloud_code_execution_eng.Api.Http.{jwt}
use cloud_code_execution_eng.Api.Analysis.{openai, AnalysisInput, AnalysisOutput}
use cloud_code_execution_eng.Api.Analysis.Model.{Decoded, ChatResponse}
use cloud_code_execution_eng.Api.Analysis.Retry.{Effort, trimmed, generate_execution_analysis}
use cloud_code_execution_eng.Api.Analysis.Outcome.{
  GivesFirst, generate_execution_analysis-GivesFirst,
}
use cloud_code_execution_eng.Common.Env.{
  unless_blank, checked, parse_number, is_missing, parse_number-bounds,
}
use cloud_code_execution_eng.Api.Config.{
  Env, Config, parse_auth_mode, parse_ai_provider, checked_config, is_openai, is_jwt, parse_env,
  load_config, analysis_config,
}

-- A key that is kept is more than blanks, and the numbers are in their bounds.
record IsParsed (c : Config) : Type 0 where
  keyed : (is_missing c.openai_api_key ≡ true) ⊎ (is_filled (trimmed c.openai_api_key) ≡ true)
  retries : c.ai_analysis_retries ≤ 5
  backoff : c.ai_analysis_retry_backoff_ms ≤ 10_000

abbrev IsKeyed : Option String → Type 0
IsKeyed key = (is_missing key ≡ true) ⊎ (is_filled (trimmed key) ≡ true)

IsKeyed-some : (value : String) → (trim value === "") ≡ false → IsKeyed (some value)
IsKeyed-some value written = inr (rw written refl)

checked-IsKeyed :
    (test : String → Bool) (value key : Option String)
    → checked test (unless_blank value) ≡ ok key
    → IsKeyed key
checked-IsKeyed test none key e = subst IsKeyed (ok-injective e) (inl refl)
checked-IsKeyed test (some value) key e = elim (Bool-cases (trim value === "")) [
  | inl blank ↦ subst IsKeyed (ok-injective (rw blank at e)) (inl refl)
  | inr written ↦ elim (Bool-cases (test value)) [
    | inl good ↦ subst IsKeyed (ok-injective (rw (written, good) at e)) (IsKeyed-some value written)
    | inr bad ↦
        let impossible : err "ZodError" ≡ ok key = rw (written, bad) at e in absurd (cc impossible)
  ]
]

parse_env-IsParsed :
    (to_number : String → Option ℕ) (is_url : String → Bool) (env : Env) (c : Config)
    → parse_env to_number is_url env ≡ ok c
    → IsParsed c
unfolding parse_env
parse_env-IsParsed to_number is_url env c e =
    let (mode, _, e1) = bind-eq-ok (parse_auth_mode env.auth_mode) _ c e in
    let (url, _, e2) = bind-eq-ok (checked is_url (unless_blank env.jwt_jwks_url)) _ c e1 in
    let (issuer, _, e3) =
      bind-eq-ok (checked (λ v. leb 1 (units v)) (unless_blank env.jwt_issuer)) _ c e2 in
    let (audience, _, e4) =
      bind-eq-ok (checked (λ v. leb 1 (units v)) (unless_blank env.jwt_audience)) _ c e3 in
    let (provider, _, e5) = bind-eq-ok (parse_ai_provider env.ai_provider) _ c e4 in
    let (key, k, e6) =
      bind-eq-ok (checked (λ v. leb 20 (units v)) (unless_blank env.openai_api_key)) _ c e5 in
    let (retries, r, e7) =
      bind-eq-ok (parse_number to_number 0 5 2 env.ai_analysis_retries) _ c e6 in
    let (backoff, b, e8) =
      bind-eq-ok (parse_number to_number 50 10_000 500 env.ai_analysis_retry_backoff_ms) _ c e7 in
    subst IsParsed (ok-injective e8) (record {
      keyed = checked-IsKeyed (λ v. leb 20 (units v)) env.openai_api_key key k;
      retries =
          (parse_number-bounds to_number 0 5 2 retries env.ai_analysis_retries (omega arith)
            (omega arith) r).1;
      backoff =
          (parse_number-bounds to_number 50 10_000 500 backoff env.ai_analysis_retry_backoff_ms
            (omega arith) (omega arith) b).1;
    })

-- What the checks behind the schema add.
pub record IsAccepted (c : Config) : Type 0 where
  pub keyed : c.ai_provider ≡ openai → is_filled (trimmed c.openai_api_key) ≡ true
  pub verifiable :
      c.auth_mode ≡ jwt → (is_missing c.jwt_jwks_url ≡ false) × (is_missing c.jwt_issuer ≡ false)
  pub retries : c.ai_analysis_retries ≤ 5
  pub backoff : c.ai_analysis_retry_backoff_ms ≤ 10_000

keyless : Config → Bool
keyless c = is_openai c.ai_provider && is_missing c.openai_api_key

unverifiable : Config → Bool
unverifiable c = is_jwt c.auth_mode && (is_missing c.jwt_jwks_url || is_missing c.jwt_issuer)

IsParsed-IsAccepted :
    (c : Config) → IsParsed c → keyless c ≡ false → unverifiable c ≡ false → IsAccepted c
unfolding keyless unverifiable
IsParsed-IsAccepted c parsed a b = record {
  keyed = λ asked. keyed-filled parsed.keyed (rw asked at a);
  verifiable = λ tokens. both (rw tokens at b);
  retries = parsed.retries;
  backoff = parsed.backoff;
}
  where
    keyed-filled :
        IsKeyed c.openai_api_key
        → is_missing c.openai_api_key ≡ false
        → is_filled (trimmed c.openai_api_key) ≡ true
    keyed-filled (inl missing) there = absurd (cc (missing, there))
    keyed-filled (inr filled) there = filled

    both :
        (is_missing c.jwt_jwks_url || is_missing c.jwt_issuer) ≡ false
        → (is_missing c.jwt_jwks_url ≡ false) × (is_missing c.jwt_issuer ≡ false)
    both h = (ground arith, ground arith)

checked_config-IsAccepted : (d c : Config) → IsParsed d → checked_config d ≡ ok c → IsAccepted c
unfolding keyless unverifiable
checked_config-IsAccepted d c parsed e = elim (Bool-cases (keyless d)) [
  | inl a ↦
      let impossible : err "OPENAI_API_KEY is required when AI_PROVIDER=openai" ≡ ok c =
        rw a at e in
      absurd (cc impossible)
  | inr a ↦ elim (Bool-cases (unverifiable d)) [
    | inl b ↦
        let impossible : err "JWT_JWKS_URL and JWT_ISSUER are required when AUTH_MODE=jwt" ≡ ok c =
          rw (a, b) at e in
        absurd (cc impossible)
    | inr b ↦
        subst (λ (x : Config). IsAccepted x) (ok-injective (rw (a, b) at e))
          (IsParsed-IsAccepted d parsed a b)
  ]
]

-- An accepted configuration that asks for OpenAI has a key that is more than blanks, so that the
-- model is asked; one that lets in by tokens only has the address of the keys and the issuer; and
-- an analysis asks at most six times and waits at most 150 s in between.
pub load_config-IsAccepted :
    (to_number : String → Option ℕ) (is_url : String → Bool) (env : Env) (c : Config)
    → load_config to_number is_url env ≡ ok c
    → IsAccepted c
unfolding load_config
load_config-IsAccepted to_number is_url env c e =
    let (d, parsed, accepted) = bind-eq-ok (parse_env to_number is_url env) checked_config c e in
    checked_config-IsAccepted d c (parse_env-IsParsed to_number is_url env d parsed) accepted

waited-le :
    (backoff calls slept : ℕ)
    → backoff ≤ 10_000
    → calls ≤ 6
    → 2 * slept + backoff * calls ≡ backoff * (calls * calls)
    → slept ≤ 150_000
waited-le backoff zero slept b c h = omega arith
waited-le backoff (suc zero) slept b c h = omega arith
waited-le backoff (suc (suc zero)) slept b c h = omega arith
waited-le backoff (suc (suc (suc zero))) slept b c h = omega arith
waited-le backoff (suc (suc (suc (suc zero)))) slept b c h = omega arith
waited-le backoff (suc (suc (suc (suc (suc zero))))) slept b c h = omega arith
waited-le backoff (suc (suc (suc (suc (suc (suc zero)))))) slept b c h = omega arith
waited-le backoff (suc (suc (suc (suc (suc (suc (suc n))))))) slept b c h = elim impossible [ ]
  where
    impossible : ⊥
    impossible = omega arith

-- With an accepted configuration that asks for OpenAI, whatever the model replies, an analysis is
-- given after at most six calls and at most 150 seconds of sleep.
pub load_config-waits :
    (to_number : String → Option ℕ) (is_url : String → Bool) (env : Env) (c : Config)
    (schema_error : ExecutionAnalysis → String) (decode : String → Result Decoded)
    (clock : ℕ → String) (respond : String → ℕ → Result ChatResponse) (input : AnalysisInput)
    → load_config to_number is_url env ≡ ok c
    → c.ai_provider ≡ openai
    → (output : AnalysisOutput) × (effort : Effort) × (generate_execution_analysis schema_error
          decode clock respond input
          (analysis_config c)
        ≡ ok (output, effort))
      × (effort.calls ≤ 6)
      × (effort.slept_ms ≤ 150_000)
load_config-waits to_number is_url env c schema_error decode clock respond input e asked =
    let accepted = load_config-IsAccepted to_number is_url env c e in
    let (output, effort, given, first, waited) =
      generate_execution_analysis-GivesFirst schema_error decode clock respond input
        (analysis_config c) asked (accepted.keyed asked) in
    let few : effort.calls ≤ 6 = few_calls output effort first accepted.retries in
    (
      output,
      effort,
      given,
      few,
      waited-le c.ai_analysis_retry_backoff_ms effort.calls effort.slept_ms accepted.backoff few
          waited,
    )
  where
    few_calls :
        (output : AnalysisOutput) (effort : Effort)
        → GivesFirst schema_error decode clock respond input (analysis_config c) output effort
        → c.ai_analysis_retries ≤ 5
        → effort.calls ≤ 6
    few_calls output effort (inl (k, p, q, f, g, h, calls)) least = omega arith
    few_calls output effort (inr (f, a, p, calls)) least = omega arith
