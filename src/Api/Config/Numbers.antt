-- ===== src/Api/Config/Numbers.antt =====
-- services/api/src/config.ts: the variables of the environment that are numbers, each with its least
-- and most value and its default, and the numbers of services/api/src/index.ts that a query gives.
-- `Number` is a parameter.
use cloud_code_execution_eng.Prelude.{
  subst, ℕ, ◌≡◌, refl, String, Bool, true, ◌&&◌, Option, none, some, List, [], ◌∷◌, leb, ◌===◌,
  if◌then◌else◌, Bool-cases, inl, inr, arith,
}
use cloud_code_execution_eng.Effect.{Result, ok}
use cloud_code_execution_eng.Effect.Fallible.{◌>>=◌, bind-eq-ok, ok-injective}
use cloud_code_execution_eng.Common.Env.{refused, parse_number}
use cloud_code_execution_eng.Tenants.Registry.{lookup}

-- `positive()` is a least value of 1; without `max` there is no most value.
pub record NumberSchema : Type 0 where
  pub least : ℕ
  pub most : Option ℕ
  pub usual : ℕ

abbrev between : ℕ → ℕ → ℕ → NumberSchema
between least most usual = record { least = least; most = some most; usual = usual }

abbrev positive : ℕ → NumberSchema
positive usual = record { least = 1; most = none; usual = usual }

abbrev pub number_schemas : List (String × NumberSchema)
number_schemas =
    ("API_PORT", positive 8080)
    ∷ ("RATE_LIMIT_REQUESTS_PER_MINUTE", between 1 100_000 240)
    ∷ ("RATE_LIMIT_WINDOW_SECONDS", between 10 3600 60)
    ∷ ("SUBMIT_RATE_LIMIT_PER_MINUTE", between 1 100_000 60)
    ∷ ("MAX_SOURCE_CODE_BYTES", between 1 1_000_000 100_000)
    ∷ ("MAX_STDIN_BYTES", between 1 1_000_000 100_000)
    ∷ ("JOB_TTL_SECONDS", positive 86_400)
    ∷ ("JOB_HISTORY_MAX", between 1 10_000 500)
    ∷ ("JOB_LIST_DEFAULT_LIMIT", between 1 200 20)
    ∷ ("JOB_LIST_MAX_LIMIT", between 1 500 100)
    ∷ ("DAILY_QUOTA_TTL_SECONDS", positive 172_800)
    ∷ ("QUEUE_JOB_ATTEMPTS", between 1 10 3)
    ∷ ("QUEUE_RETRY_BACKOFF_MS", between 1 60_000 1_000)
    ∷ ("ANALYSIS_MAX_SOURCE_CHARS", between 1 50_000 8_000)
    ∷ ("QUEUE_DEPTH_TARGET", between 1 10_000 25)
    ∷ ("QUEUE_DEPTH_PUBLISH_INTERVAL_MS", between 5_000 300_000 30_000)
    ∷ ("ADMIN_BURST_MAX", between 1 10_000 1_000)
    ∷ ("AI_ANALYSIS_TIMEOUT_MS", between 1_000 30_000 10_000)
    ∷ ("AI_ANALYSIS_RETRIES", between 0 5 2)
    ∷ ("AI_ANALYSIS_RETRY_BACKOFF_MS", between 50 10_000 500)
    ∷ ("METRICS_WINDOW_SECONDS", between 10 3600 60)
    ∷ ("METRICS_SAMPLE_LIMIT", between 50 5000 1000)
    ∷ ("WORKER_FLEET_CAPACITY", between 1 1000 4)
    ∷ []

abbrev up_to : Option ℕ → ℕ → Bool
up_to none n = true
up_to (some most) n = leb n most

abbrev accepted : NumberSchema → ℕ → Bool
accepted schema n = leb schema.least n && up_to schema.most n

abbrev accept : NumberSchema → Option ℕ → Result ℕ
accept schema none = refused
accept schema (some n) = if accepted schema n then ok n else refused

abbrev pub parse_variable : (String → Option ℕ) → NumberSchema → Option String → Result ℕ
parse_variable to_number schema none = ok schema.usual
parse_variable to_number schema (some value) = accept schema (to_number value)

module _ (to_number : String → Option ℕ) (env : String → Option String) where
  abbrev pub parse_numbers : List (String × NumberSchema) → Result (List (String × ℕ))
  parse_numbers [] = ok []
  parse_numbers ((name, schema) ∷ schemas) = do
    n ← parse_variable to_number schema (env name)
    numbers ← parse_numbers schemas
    ok ((name, n) ∷ numbers)

-- The limit of a list, which a query may leave out.
abbrev pub parse_limit : (String → Option ℕ) → ℕ → Option String → Result (Option ℕ)
parse_limit to_number most none = ok none
parse_limit to_number most (some value) = do
  n ← parse_number to_number 1 most 1 (some value)
  ok (some n)

-- The count of a burst.
abbrev pub parse_count : (String → Option ℕ) → ℕ → Option String → Result ℕ
parse_count to_number burst_max value = parse_number to_number 1 burst_max burst_max value

abbrev pub IsWithin : NumberSchema → ℕ → Type 0
IsWithin schema n = accepted schema n ≡ true

-- Every default is accepted.
abbrev are_usual : List (String × NumberSchema) → Bool
are_usual [] = true
are_usual ((name, schema) ∷ schemas) = accepted schema schema.usual && are_usual schemas

parse_variable-IsWithin :
    (to_number : String → Option ℕ) (schema : NumberSchema) (value : Option String) (n : ℕ)
    → IsWithin schema schema.usual
    → parse_variable to_number schema value ≡ ok n
    → IsWithin schema n
parse_variable-IsWithin to_number schema none n usual e =
    subst (λ k. IsWithin schema k) (ok-injective e) usual
parse_variable-IsWithin to_number schema (some value) n usual e = read (to_number value) e
  where
    read : (o : Option ℕ) → accept schema o ≡ ok n → IsWithin schema n
    read none h = cc
    read (some k) h = ground arith

first_of : {a b : NumberSchema} → ◌≡◌ {A = Option NumberSchema} (some a) (some b) → a ≡ b
first_of e = cc

parse_numbers-IsWithin :
    (to_number : String → Option ℕ) (env : String → Option String)
    (schemas : List (String × NumberSchema)) (numbers : List (String × ℕ)) (name : String)
    (schema : NumberSchema)
    → are_usual schemas ≡ true
    → parse_numbers to_number env schemas ≡ ok numbers
    → lookup name schemas ≡ some schema
    → (n : ℕ) × (lookup name numbers ≡ some n) × IsWithin schema n
parse_numbers-IsWithin to_number env [] numbers name schema usual e found = cc
parse_numbers-IsWithin to_number env ((j, first) ∷ schemas) numbers name schema usual e found =
    let first_usual : IsWithin first first.usual = ground arith in
    let rest_usual : are_usual schemas ≡ true = ground arith in
    let (n, one, rest) = bind-eq-ok (parse_variable to_number first (env j)) _ numbers e in
    let (others, many, whole) = bind-eq-ok (parse_numbers to_number env schemas) _ numbers rest in
    subst (λ (x : List (String × ℕ)). (k : ℕ) × (lookup name x ≡ some k) × IsWithin schema k)
      (ok-injective whole)
      (elim (Bool-cases (j === name)) [
        | inl same ↦
            let kept = parse_variable-IsWithin to_number first (env j) n first_usual one in
            let is_first : first ≡ schema = first_of (rw same at found) in
            rw same (n, refl, subst (λ (x : NumberSchema). IsWithin x n) is_first kept)
        | inr other ↦
            let later : lookup name schemas ≡ some schema = rw other at found in
            rw other (
              parse_numbers-IsWithin to_number env schemas others name schema rest_usual many later)
      ])

-- When all numbers of the environment are accepted, each of them is within the bounds of its schema.
pub parse_numbers-bounds :
    (to_number : String → Option ℕ) (env : String → Option String) (numbers : List (String × ℕ))
    (name : String) (schema : NumberSchema)
    → parse_numbers to_number env number_schemas ≡ ok numbers
    → lookup name number_schemas ≡ some schema
    → (n : ℕ) × (lookup name numbers ≡ some n) × IsWithin schema n
parse_numbers-bounds to_number env numbers name schema e found =
    parse_numbers-IsWithin to_number env number_schemas numbers name schema refl e found
