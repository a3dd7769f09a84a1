-- ===== src/Api/Headers.antt =====
-- services/api/src/index.ts: getHeaderValue, getBearerToken, parseIdList and the ids of traces. A
-- random id is given beforehand.
pub mod TraceIds
pub mod Bearer
use Prim.Native.Char.{Char, code}
use Prim.Native.String
use cloud_code_execution_eng.Prelude.{
  ℕ, ◌+◌, String, Bool, true, false, ◌&&◌, ◌||◌, not, Option, none, some, List, [], ◌∷◌, leb, ltb,
  ◌==◌, ◌===◌, if◌then◌else◌, or_else, keep, map, trim, skip_blanks, is_blank, first_units,
}
use cloud_code_execution_eng.Common.Schema.{units}

-- The value of a header, as Node.js gives it.
pub data Header : Type 0 where
  missing : Header
  single : String → Header
  several : List String → Header

-- The text without the blanks around it, if anything is left.
abbrev pub trimmed : String → Option String
trimmed value = if trim value === "" then none else some (trim value)

unfoldable pub get_header_value : Header → Option String
get_header_value missing = none
get_header_value (single value) = trimmed value
get_header_value (several []) = none
get_header_value (several (value ∷ values)) = trimmed value

abbrev pub fold_case : ℕ → ℕ
fold_case c = if leb b'A' c && leb c b'Z' then c + 32 else c

-- The rest of a text behind these small letters, in either case.
abbrev pub behind : String → String → Option String
behind String.[] s = some s
behind (String.◌∷◌ p ps) String.[] = none
behind (String.◌∷◌ p ps) (String.◌∷◌ c s) =
    if code p == fold_case (code c) then behind ps s else none

-- The rest of a text behind a `\s+`, which takes all blanks: what follows must begin with none.
abbrev behind_blanks : Option String → Option String
behind_blanks none = none
behind_blanks (some String.[]) = none
behind_blanks (some (String.◌∷◌ c s)) = if is_blank (code c) then some (skip_blanks s) else none

-- What `.` does not match.
abbrev ends_line : ℕ → Bool
ends_line c = c == 10 || c == 13 || c == 8232 || c == 8233

abbrev pub is_line : String → Bool
is_line String.[] = true
is_line (String.◌∷◌ c s) = not (ends_line (code c)) && is_line s

-- `(.+)$`, trimmed.
abbrev token_in : Option String → Option String
token_in none = none
token_in (some rest) = if is_line rest then trimmed rest else none

abbrev bearer_in : Option String → Option String
bearer_in none = none
bearer_in (some authorization) = token_in (behind_blanks (behind "bearer" authorization))

-- The header begins with `Bearer` in any case.
unfoldable pub get_bearer_token : Header → Option String
unfolding get_header_value
get_bearer_token header = bearer_in (get_header_value header)

-- `value.split(",")`.
abbrev pub split_commas : String → List String
split_commas String.[] = "" ∷ []
split_commas (String.◌∷◌ c s) =
    let rest = split_commas s in if code c == b',' then "" ∷ rest else onto c rest
  where
    onto : Char → List String → List String
    onto c [] = String.◌∷◌ c "" ∷ []
    onto c (part ∷ parts) = String.◌∷◌ c part ∷ parts

unfoldable pub parse_id_list : String → List String
parse_id_list value = keep (λ entry. not (entry === "")) (map trim (split_commas value))

-- `[a-zA-Z0-9_.:/-]`.
unfoldable pub is_allowed : ℕ → Bool
is_allowed c =
    (leb b'a' c && leb c b'z')
    || (leb b'A' c && leb c b'Z')
    || (leb b'0' c && leb c b'9')
    || c == b'_'
    || c == b'.'
    || c == b':'
    || c == b'/'
    || c == b'-'

-- Each unit of UTF-16 that is not allowed becomes an underscore.
unfoldable pub replace_others : String → String
unfolding is_allowed
replace_others String.[] = ""
replace_others (String.◌∷◌ c s) =
    let rest = replace_others s in
    if is_allowed (code c)
    then String.◌∷◌ c rest
    else if ltb (code c) 65536
    then String.◌∷◌ "_" rest
    else String.◌∷◌ "_" (String.◌∷◌ "_" rest)

unfoldable pub normalize_trace_id : String → String
normalize_trace_id value = first_units 128 (replace_others (trim value))

unfoldable pub coerce_trace_id : String → String → String
coerce_trace_id random_uuid value =
    if leb 8 (units (normalize_trace_id value)) then normalize_trace_id value else random_uuid

-- The id that the client asks for, or the server's own of the request.
unfoldable pub get_trace_id : String → Header → String → String
get_trace_id random_uuid requested request_id =
    coerce_trace_id random_uuid (or_else (get_header_value requested) request_id)
