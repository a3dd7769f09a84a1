-- ===== src/Api/Hooks.antt =====
-- services/api/src/index.ts: the hooks onRequest and onResponse, which open and end the span of a
-- request. The attributes that OpenTelemetry is given are texts and numbers.
use Prim.Native.String.{◌++◌ as concat}
use cloud_code_execution_eng.Prelude.{
  ℕ, ◌-◌, ◌≡◌, ap, String, true, Option, none, some, List, [], ◌∷◌, ◌++◌, All, ◌==◌, if◌then◌else◌,
  or_else,
}
use cloud_code_execution_eng.Redis.Streams.{MetaValue, text, number}
use cloud_code_execution_eng.Telemetry.{
  SpanCall, set_attribute, set_status, end_call, code_of, end_api_span, IsAttribute,
  end_api_span-ends,
}
use cloud_code_execution_eng.Api.Headers.{Header, get_trace_id}

-- What onRequest leaves with the request, the calls of its span, and the header of the reply.
pub record Opened : Type 0 where
  pub trace_id : String
  pub started_at_ms : ℕ
  pub span_name : String
  pub calls : List (SpanCall MetaValue)
  pub reply_header : String × String

unfoldable pub on_request : String → Header → String → String → String → ℕ → Opened
on_request random_uuid requested request_id method url now =
    let trace_id = get_trace_id random_uuid requested request_id in
    record {
      trace_id = trace_id;
      started_at_ms = now;
      span_name = concat method (concat " " url);
      calls =
          set_attribute "ccee.trace_id" (text trace_id)
          ∷ set_attribute "http.request.method" (text method)
          ∷ set_attribute "url.path" (text url)
          ∷ [];
      reply_header = ("x-request-id", trace_id);
    }

abbrev as_text : Option String → Option MetaValue
as_text none = none
as_text (some value) = some (text value)

-- `Math.max(0, Date.now() - (request.startedAtMs || Date.now()))`.
abbrev pub duration_ms : ℕ → ℕ → ℕ
duration_ms started_at_ms now = now - (if started_at_ms == 0 then now else started_at_ms)

unfoldable pub on_response :
    Opened
    → Option String
    → Option String
    → Option String
    → String
    → ℕ
    → ℕ
    → List (SpanCall MetaValue)
on_response opened tenant_id subject route url status_code now =
    end_api_span MetaValue true status_code (
      ("ccee.trace_id", some (text opened.trace_id))
      ∷ ("ccee.tenant_id", as_text tenant_id)
      ∷ ("ccee.subject", as_text subject)
      ∷ ("http.response.status_code", some (number status_code))
      ∷ ("http.route", some (text (or_else route url)))
      ∷ ("ccee.duration_ms", some (number (duration_ms opened.started_at_ms now)))
      ∷ [])

module _ (random_uuid : String) (requested : Header) (request_id method url : String)
    (started : ℕ) where
  abbrev pub opened : Opened
  opened = on_request random_uuid requested request_id method url started

  -- A span that onRequest opens is ended: the id of the trace that the reply's header carries is set
  -- first, then other attributes, then the status that the reply's code stands for, then the end.
  pub on_response-ends :
      (tenant_id subject route : Option String) (status_code now : ℕ)
      → (calls : List (SpanCall MetaValue)) × All (IsAttribute MetaValue) calls
        × (opened.calls ++ on_response opened tenant_id subject route url status_code now
            ≡ set_attribute "ccee.trace_id" (text opened.reply_header.1) ∷ calls
              ++ set_status (code_of status_code) ∷ end_call ∷ [])
  unfolding on_request on_response
  on_response-ends tenant_id subject route status_code now =
      let (calls, attributes, ends, same) = end_api_span-ends MetaValue status_code (
        ("ccee.trace_id", some (text opened.trace_id))
        ∷ ("ccee.tenant_id", as_text tenant_id)
        ∷ ("ccee.subject", as_text subject)
        ∷ ("http.response.status_code", some (number status_code))
        ∷ ("http.route", some (text (or_else route url)))
        ∷ ("ccee.duration_ms", some (number (duration_ms started now)))
        ∷ []) in
      (
        set_attribute "http.request.method" (text method)
            ∷ set_attribute "url.path" (text url)
            ∷ calls,
        (tt, (tt, attributes)),
        ap (λ x. opened.calls ++ x) ends,
      )
