-- ===== src/Common/Schema.antt =====
-- packages/common/src/index.ts: jobRequestSchema and queueJobPayloadSchema. A body comes with the
-- types of its fields checked; the lengths of texts are in UTF-16 units, as `length` counts them.
use Prim.Native.Char.{code}
use cloud_code_execution_eng.Prelude.{
  ℕ, ◌+◌, ◌≤◌, ◌≡◌, refl, String, Bool, true, ◌&&◌, Option, none, some, arith, leb, ltb,
  if◌then◌else◌, ◌===◌, or_else,
}
use cloud_code_execution_eng.Common.Jobs.{
  SupportedLanguage, java, python, go, javascript, typescript, cpp, csharp, language_name,
  JobRequest, QueueJobPayload,
}

-- `value.length`.
unfoldable pub units : String → ℕ
units String.[] = 0
units (String.◌∷◌ c s) = (if ltb (code c) 65536 then 1 else 2) + units s

unfoldable pub parse_language : String → Option SupportedLanguage
parse_language name =
    if name === "java"
    then some java
    else if name === "python"
    then some python
    else if name === "go"
    then some go
    else if name === "javascript"
    then some javascript
    else if name === "typescript"
    then some typescript
    else if name === "cpp"
    then some cpp
    else if name === "csharp"
    then some csharp
    else none

pub record JobBody : Type 0 where
  pub language : String
  pub source_code : String
  pub stdin : Option String
  pub timeout_ms : Option ℕ
  pub memory_mb : Option ℕ
  pub cpu_millicores : Option ℕ

infixl 5 ◌>>=◌
abbrev ◌>>=◌ : {A B : Type 0} → Option A → (A → Option B) → Option B
none >>= f = none
some a >>= f = f a

abbrev pub within : ℕ → ℕ → ℕ → Bool
within lo hi n = leb lo n && leb n hi

abbrev checked : (A : Type 0) → (A → Bool) → A → Option A
checked A test a = if test a then some a else none

-- `jobRequestSchema.safeParse(body)`: `none` where an issue is reported.
unfoldable pub parse_job_request : JobBody → Option JobRequest
parse_job_request body = do
  language ← parse_language body.language
  source_code ← checked String (λ s. within 1 100_000 (units s)) body.source_code
  stdin ← checked String (λ s. leb (units s) 100_000) (or_else body.stdin "")
  timeout_ms ← checked ℕ (within 100 15_000) (or_else body.timeout_ms 3_000)
  memory_mb ← checked ℕ (within 64 512) (or_else body.memory_mb 128)
  cpu_millicores ← checked ℕ (within 128 1024) (or_else body.cpu_millicores 256)
  some (record {
    language = language;
    source_code = source_code;
    stdin = stdin;
    timeout_ms = timeout_ms;
    memory_mb = memory_mb;
    cpu_millicores = cpu_millicores;
  })

-- What the schema promises of a request.
pub record IsRequest (r : JobRequest) : Type 0 where
  pub some_source : 1 ≤ units r.source_code
  pub source_fits : units r.source_code ≤ 100_000
  pub stdin_fits : units r.stdin ≤ 100_000
  pub timeout_least : 100 ≤ r.timeout_ms
  pub timeout_most : r.timeout_ms ≤ 15_000
  pub memory_least : 64 ≤ r.memory_mb
  pub memory_most : r.memory_mb ≤ 512
  pub cpu_least : 128 ≤ r.cpu_millicores
  pub cpu_most : r.cpu_millicores ≤ 1024

-- The JSON of a request, as the queue carries it.
unfoldable pub body_of : JobRequest → JobBody
body_of r = record {
  language = language_name r.language;
  source_code = r.source_code;
  stdin = some r.stdin;
  timeout_ms = some r.timeout_ms;
  memory_mb = some r.memory_mb;
  cpu_millicores = some r.cpu_millicores;
}

pub parse_language-language_name :
    (l : SupportedLanguage) → parse_language (language_name l) ≡ some l
unfolding parse_language
parse_language-language_name java = refl
parse_language-language_name _ = refl

-- Every request that the schema accepts is within its bounds.
pub parse_job_request-IsRequest :
    (body : JobBody) (r : JobRequest) → parse_job_request body ≡ some r → IsRequest r
unfolding parse_job_request
parse_job_request-IsRequest body r h = ground arith

-- A request within the bounds of the schema is parsed back from its JSON.
pub parse_job_request-body_of :
    (r : JobRequest) → IsRequest r → parse_job_request (body_of r) ≡ some r
unfolding parse_job_request body_of
parse_job_request-body_of r h = rw (parse_language-language_name r.language) (ground arith)

abbrev pub trace_fits : Option String → Bool
trace_fits none = true
trace_fits (some t) = within 8 128 (units t)

module _ (is_uuid : String → Bool) where
  -- `queueJobPayloadSchema.parse(payload)` accepts the payload; the request in it is parsed apart.
  unfoldable pub payload_fits : QueueJobPayload → Bool
  payload_fits p =
      is_uuid p.job_id
      && within 1 128 (units p.tenant_id)
      && within 8 128 (units p.api_key_fingerprint)
      && trace_fits p.trace_id
