-- ===== src/Api/Analysis/Model.antt =====
-- services/api/src/analysis.ts: generateOpenAiExecutionAnalysis. What the model replies is given; an
-- abort by the timer shows as a thrown error like any other. `JSON.parse` with `String` of the four
-- fields is a parameter: a field that is missing or null is none.
use Prim.Native.String.{◌++◌}
use cloud_code_execution_eng.Prelude.{
  ℕ, ◌≡◌, subst, Bool-cases, inl, inr, arith, String, Bool, ◌&&◌, Option, none, some, List, [], ◌∷◌,
  map, take, keep, show, leb, ◌===◌, if◌then◌else◌, or_else, trim, first_units,
}
use cloud_code_execution_eng.Effect.{Result, ok, err}
use cloud_code_execution_eng.Effect.Fallible.{◌>>=◌, bind-eq-ok, ok-injective}
use cloud_code_execution_eng.Common.Analysis.{
  Confidence, low, medium, high, ExecutionAnalysis, is_filled, parse_analysis, IsAnalysis,
  parse_analysis-IsAnalysis,
}

-- `suggestions` is none if it is no array, and `confidence` if it is no text.
pub record Decoded : Type 0 where
  pub summary : Option String
  pub explanation : Option String
  pub suggestions : Option (List String)
  pub confidence : Option String

-- A response of the chat endpoint: its body as a text, and `choices[0].message.content` in it.
pub record ChatResponse : Type 0 where
  pub status : ℕ
  pub detail : Result String
  pub content : Result (Option String)

unfoldable pub to_confidence : Option String → Confidence
to_confidence none = medium
to_confidence (some value) =
    if value === "low" then low else if value === "high" then high else medium

unfoldable pub normalize_suggestions : Option (List String) → List String
normalize_suggestions none = []
normalize_suggestions (some items) = take 5 (keep is_filled (map trim items))

module _ (schema_error : ExecutionAnalysis → String) (decode : String → Result Decoded)
    (now : String) where
  abbrev decoded_analysis : Decoded → ExecutionAnalysis
  decoded_analysis d = record {
    summary = or_else d.summary "Execution analysis";
    explanation = or_else d.explanation "No explanation was produced.";
    suggestions = normalize_suggestions d.suggestions;
    confidence = to_confidence d.confidence;
    generated_at = now;
  }

  abbrev with_suggestion : List String → ExecutionAnalysis → Result ExecutionAnalysis
  with_suggestion (s ∷ ss) parsed = ok parsed
  with_suggestion [] parsed = parse_analysis schema_error (record parsed {
    suggestions =
        "No concrete suggestions were generated; review stderr/stdout and rerun with targeted test input."
        ∷ [];
  })

  abbrev read_decoded : String → Result ExecutionAnalysis
  read_decoded content = do
    decoded ← decode content
    parsed ← parse_analysis schema_error (decoded_analysis decoded)
    with_suggestion parsed.suggestions parsed

  abbrev read_content : Option String → Result ExecutionAnalysis
  read_content none = err "openai_empty_response"
  read_content (some content) =
      if content === "" then err "openai_empty_response" else read_decoded content

  -- `response.ok`.
  abbrev is_ok : ℕ → Bool
  is_ok status = leb 200 status && leb status 299

  abbrev read_response : ChatResponse → Result ExecutionAnalysis
  read_response r = if is_ok r.status then r.content >>= read_content else do
    detail ← r.detail
    err ("openai_http_" ++ (show r.status ++ (":" ++ first_units 240 detail)))

  unfoldable pub generate_openai_execution_analysis : Result ChatResponse → Result ExecutionAnalysis
  unfolding to_confidence normalize_suggestions
  generate_openai_execution_analysis response = response >>= read_response

  with_suggestion-IsAnalysis :
      (ss : List String) (parsed a : ExecutionAnalysis)
      → IsAnalysis parsed
      → with_suggestion ss parsed ≡ ok a
      → IsAnalysis a
  with_suggestion-IsAnalysis (s ∷ ss) parsed a h e =
      subst (λ (x : ExecutionAnalysis). IsAnalysis x) (ok-injective e) h
  with_suggestion-IsAnalysis [] parsed a h e = parse_analysis-IsAnalysis schema_error _ a e

  decoded-IsAnalysis :
      (content : String) (a : ExecutionAnalysis) → read_decoded content ≡ ok a → IsAnalysis a
  decoded-IsAnalysis content a e =
      let (d, _, e1) = bind-eq-ok (decode content) _ a e in
      let (parsed, p, e2) = bind-eq-ok (parse_analysis schema_error (decoded_analysis d)) _ a e1 in
      with_suggestion-IsAnalysis parsed.suggestions parsed a
        (parse_analysis-IsAnalysis schema_error (decoded_analysis d) parsed p) e2

  content-IsAnalysis :
      (content : Option String) (a : ExecutionAnalysis) → read_content content ≡ ok a → IsAnalysis a
  content-IsAnalysis none a e = cc
  content-IsAnalysis (some content) a e = elim (Bool-cases (content === "")) [
    | inl empty ↦ absurd (ground arith)
    | inr filled ↦ decoded-IsAnalysis content a (rw filled at e)
  ]

  response-IsAnalysis :
      (r : ChatResponse) (a : ExecutionAnalysis) → read_response r ≡ ok a → IsAnalysis a
  response-IsAnalysis r a e = elim (Bool-cases (is_ok r.status)) [
    | inl good ↦
        let (content, _, e1) = bind-eq-ok r.content read_content a (rw good at e) in
        content-IsAnalysis content a e1
    | inr bad ↦ let (detail, _, e1) = bind-eq-ok r.detail _ a (rw bad at e) in cc e1
  ]

  -- What the model is taken to say satisfies the schema.
  pub generate_openai_execution_analysis-IsAnalysis :
      (response : Result ChatResponse) (a : ExecutionAnalysis)
      → generate_openai_execution_analysis response ≡ ok a
      → IsAnalysis a
  unfolding generate_openai_execution_analysis
  generate_openai_execution_analysis-IsAnalysis response a e =
      let (r, _, e1) = bind-eq-ok response read_response a e in response-IsAnalysis r a e1
