-- ===== src/Api/Settings.antt =====
-- services/api/src/index.ts: the keys of the admins, the claims of a token, and the check at the
-- start. `JSON.parse` is a parameter: a text that parses to an array gives the texts of its items.
use cloud_code_execution_eng.Prelude.{
  String, Bool, true, false, ◌&&◌, ◌||◌, not, Option, none, some, List, [], ◌∷◌, keep, length, ◌==◌,
  ◌===◌, if◌then◌else◌, trim,
}
use cloud_code_execution_eng.Effect.{Result, ok, err}
use cloud_code_execution_eng.Tenants.{TenantPrincipal}
use cloud_code_execution_eng.Api.Http.{AuthMode, api_key, jwt, hybrid}

pub data ParsedJson : Type 0 where
  not_json : ParsedJson
  array : List String → ParsedJson
  other_json : ParsedJson

abbrev pub admin_keys_in : ParsedJson → List String
admin_keys_in not_json = []
admin_keys_in other_json = []
admin_keys_in (array items) = keep (λ item. not (item === "")) items

unfoldable pub parse_admin_keys : (String → ParsedJson) → String → List String
parse_admin_keys parse value = admin_keys_in (parse value)

-- `adminApiKeys.has(key)`.
abbrev pub has_key : List String → String → Bool
has_key [] key = false
has_key (k ∷ keys) key = (k === key) || has_key keys key

-- A claim of a token that verifies.
pub data ClaimValue : Type 0 where
  text_claim : String → ClaimValue
  other_claim : ClaimValue

abbrev pub read_claim : Option ClaimValue → Option String
read_claim none = none
read_claim (some other_claim) = none
read_claim (some (text_claim value)) = if trim value === "" then none else some (trim value)

unfoldable pub read_string_claim : (String → Option ClaimValue) → String → Option String
read_string_claim payload claim_name = read_claim (payload claim_name)

abbrev is_api_key : AuthMode → Bool
is_api_key api_key = true
is_api_key jwt = false
is_api_key hybrid = false

-- With API keys alone the server does not start without a tenant.
unfoldable pub check_registry :
    AuthMode → List (String × TenantPrincipal) → Result (List (String × TenantPrincipal))
check_registry mode registry =
    if is_api_key mode && length registry == 0
    then err "TENANT_API_KEYS_JSON configured no tenants while AUTH_MODE=api_key"
    else ok registry
