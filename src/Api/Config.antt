-- ===== src/Api/Config.antt =====
-- services/api/src/config.ts: the variables of the environment that the choice of who is let in and
-- of who analyzes depends on. `Number` and the test of a URL are parameters; a schema that refuses
-- its variable throws.
pub mod Analyzed
pub mod Numbers
use cloud_code_execution_eng.Prelude.{
  ℕ, String, Bool, true, false, ◌&&◌, ◌||◌, not, Option, none, some, leb, ◌===◌, if◌then◌else◌,
  trim,
}
use cloud_code_execution_eng.Effect.{Result, ok, err}
use cloud_code_execution_eng.Effect.Fallible.{◌>>=◌}
use cloud_code_execution_eng.Common.Env.{refused, unless_blank, checked, parse_number, is_missing}
use cloud_code_execution_eng.Common.Schema.{units}
use cloud_code_execution_eng.Api.Http.{AuthMode, api_key, jwt, hybrid}
use cloud_code_execution_eng.Api.Analysis.{AiProvider, no_provider, openai, AnalysisRuntimeConfig}

pub record Env : Type 0 where
  pub auth_mode : Option String
  pub jwt_jwks_url : Option String
  pub jwt_issuer : Option String
  pub jwt_audience : Option String
  pub ai_provider : Option String
  pub openai_api_key : Option String
  pub ai_analysis_retries : Option String
  pub ai_analysis_retry_backoff_ms : Option String

pub record Config : Type 0 where
  pub auth_mode : AuthMode
  pub jwt_jwks_url : Option String
  pub jwt_issuer : Option String
  pub jwt_audience : Option String
  pub ai_provider : AiProvider
  pub openai_api_key : Option String
  pub ai_analysis_retries : ℕ
  pub ai_analysis_retry_backoff_ms : ℕ

abbrev pub parse_auth_mode : Option String → Result AuthMode
parse_auth_mode none = ok api_key
parse_auth_mode (some value) =
    if value === "api_key"
    then ok api_key
    else if value === "jwt"
    then ok jwt
    else if value === "hybrid"
    then ok hybrid
    else refused

abbrev pub parse_ai_provider : Option String → Result AiProvider
parse_ai_provider none = ok no_provider
parse_ai_provider (some value) =
    if value === "none" then ok no_provider else if value === "openai" then ok openai else refused

abbrev pub is_openai : AiProvider → Bool
is_openai no_provider = false
is_openai openai = true

abbrev pub is_jwt : AuthMode → Bool
is_jwt api_key = false
is_jwt jwt = true
is_jwt hybrid = false

-- The two checks behind the schema.
abbrev pub checked_config : Config → Result Config
checked_config c =
    if is_openai c.ai_provider && is_missing c.openai_api_key
    then err "OPENAI_API_KEY is required when AI_PROVIDER=openai"
    else if is_jwt c.auth_mode && (is_missing c.jwt_jwks_url || is_missing c.jwt_issuer)
    then err "JWT_JWKS_URL and JWT_ISSUER are required when AUTH_MODE=jwt"
    else ok c

module _ (to_number : String → Option ℕ) (is_url : String → Bool) where
  unfoldable pub parse_env : Env → Result Config
  parse_env env = do
    auth_mode ← parse_auth_mode env.auth_mode
    jwks_url ← checked is_url (unless_blank env.jwt_jwks_url)
    issuer ← checked (λ v. leb 1 (units v)) (unless_blank env.jwt_issuer)
    audience ← checked (λ v. leb 1 (units v)) (unless_blank env.jwt_audience)
    ai_provider ← parse_ai_provider env.ai_provider
    key ← checked (λ v. leb 20 (units v)) (unless_blank env.openai_api_key)
    retries ← parse_number to_number 0 5 2 env.ai_analysis_retries
    backoff ← parse_number to_number 50 10_000 500 env.ai_analysis_retry_backoff_ms
    ok (record {
      auth_mode = auth_mode;
      jwt_jwks_url = jwks_url;
      jwt_issuer = issuer;
      jwt_audience = audience;
      ai_provider = ai_provider;
      openai_api_key = key;
      ai_analysis_retries = retries;
      ai_analysis_retry_backoff_ms = backoff;
    })

  unfoldable pub load_config : Env → Result Config
  unfolding parse_env
  load_config env = parse_env env >>= checked_config

-- What the handler of an analysis takes from the configuration.
abbrev pub analysis_config : Config → AnalysisRuntimeConfig
analysis_config c = record {
  provider = c.ai_provider;
  openai_api_key = c.openai_api_key;
  retries = c.ai_analysis_retries;
  retry_backoff_ms = c.ai_analysis_retry_backoff_ms;
}
