-- ===== src/Telemetry.antt =====
-- services/api/src/telemetry.ts and services/worker/src/telemetry.ts: which SDK is started, and the
-- calls that `endSpan` makes of a span. The SDK, the exporter and the spans are OpenTelemetry's.
use cloud_code_execution_eng.Prelude.{
  ℕ, ◌≡◌, refl, String, Bool, true, Option, none, some, List, [], ◌∷◌, ◌++◌, leb, ◌===◌,
  if◌then◌else◌, All,
}

pub record TelemetryConfig : Type 0 where
  pub enabled : Bool
  pub service_name : String
  pub otlp_endpoint : Option String

-- The SDK that runs: the name of its resource, and where its traces go, if they are exported.
pub record Sdk : Type 0 where
  pub resource_name : String
  pub exporter_url : Option String

abbrev exporter : Option String → Option String
exporter none = none
exporter (some url) = if url === "" then none else some url

unfoldable pub start_telemetry : TelemetryConfig → Option Sdk
start_telemetry config =
    if config.enabled
    then some (record {
      resource_name = config.service_name;
      exporter_url = exporter config.otlp_endpoint;
    })
    else none

pub data SpanStatusCode : Type 0 where
  span_ok span_error : SpanStatusCode

pub data SpanCall (V : Type 0) : Type 0 where
  set_attribute : String → V → SpanCall V
  set_status : SpanStatusCode → SpanCall V
  end_call : SpanCall V

abbrev pub code_of : ℕ → SpanStatusCode
code_of status_code = if leb 500 status_code then span_error else span_ok

module _ (V : Type 0) where
  -- The loop over the attributes; a null one is none.
  abbrev pub set_attributes : List (String × Option V) → List (SpanCall V)
  set_attributes [] = []
  set_attributes ((key, none) ∷ attributes) = set_attributes attributes
  set_attributes ((key, some value) ∷ attributes) =
      set_attribute key value ∷ set_attributes attributes

  -- The worker's `endSpan`; `traced` says whether there is a span.
  unfoldable pub end_worker_span :
      Bool → SpanStatusCode → List (String × Option V) → List (SpanCall V)
  end_worker_span traced code attributes =
      if traced then set_attributes attributes ++ set_status code ∷ end_call ∷ [] else []

  -- The API's `endSpan`.
  unfoldable pub end_api_span : Bool → ℕ → List (String × Option V) → List (SpanCall V)
  end_api_span traced status_code attributes =
      if traced
      then set_attributes attributes ++ set_status (code_of status_code) ∷ end_call ∷ []
      else []

  abbrev pub IsAttribute : SpanCall V → Type 0
  IsAttribute (set_attribute key value) = Unit
  IsAttribute (set_status code) = ⊥
  IsAttribute end_call = ⊥

  set_attributes-All :
      (attributes : List (String × Option V)) → All IsAttribute (set_attributes attributes)
  set_attributes-All [] = tt
  set_attributes-All ((key, none) ∷ attributes) = set_attributes-All attributes
  set_attributes-All ((key, some value) ∷ attributes) = (tt, set_attributes-All attributes)

  -- The API ends a span as the worker would with the status that the reply's code stands for: the
  -- attributes are set first, then the status, and the end is the last call.
  pub end_api_span-ends :
      (status_code : ℕ) (attributes : List (String × Option V))
      → (calls : List (SpanCall V)) × All IsAttribute calls
        × (end_api_span true status_code attributes
            ≡ calls ++ set_status (code_of status_code) ∷ end_call ∷ [])
        × (end_api_span true status_code attributes
            ≡ end_worker_span true (code_of status_code) attributes)
  unfolding end_api_span end_worker_span
  end_api_span-ends status_code attributes =
      (set_attributes attributes, set_attributes-All attributes, refl, refl)
