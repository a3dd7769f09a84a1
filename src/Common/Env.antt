-- ===== src/Common/Env.antt =====
-- The schemas of the variables of the environment that services/api/src/config.ts and
-- services/worker/src/config.ts share. `Number` is a parameter; a schema that refuses its variable
-- throws.
use cloud_code_execution_eng.Prelude.{
  ℕ, ◌≤◌, ◌≡◌, String, Bool, true, ◌&&◌, Option, none, some, leb, ◌===◌, if◌then◌else◌, trim, arith,
}
use cloud_code_execution_eng.Effect.{Result, ok, err}

abbrev pub refused {ℓ} : {A : Type ℓ} → Result A
refused = err "ZodError"

-- The preprocessing that takes a blank text for none.
abbrev pub unless_blank : Option String → Option String
unless_blank none = none
unless_blank (some value) = if trim value === "" then none else some value

-- `z.string().check(…).optional()`.
abbrev pub checked : (String → Bool) → Option String → Result (Option String)
checked test none = ok none
checked test (some value) = if test value then ok (some value) else refused

abbrev pub bounded : ℕ → ℕ → Option ℕ → Result ℕ
bounded least most none = refused
bounded least most (some n) = if leb least n && leb n most then ok n else refused

-- `z.coerce.number().int().min(least).max(most).default(usual)`.
abbrev pub parse_number : (String → Option ℕ) → ℕ → ℕ → ℕ → Option String → Result ℕ
parse_number to_number least most usual none = ok usual
parse_number to_number least most usual (some value) = bounded least most (to_number value)

abbrev pub is_missing : Option String → Bool
is_missing none = true
is_missing (some value) = value === ""

-- The number that is read is within the bounds of its schema, if the default is.
pub parse_number-bounds :
    (to_number : String → Option ℕ) (least most usual n : ℕ) (value : Option String)
    → least ≤ usual
    → usual ≤ most
    → parse_number to_number least most usual value ≡ ok n
    → (least ≤ n) × (n ≤ most)
parse_number-bounds to_number least most usual n none low high e = (ground arith, ground arith)
parse_number-bounds to_number least most usual n (some value) low high e =
    (ground arith, ground arith)
