-- ===== src/Api/Headers/TraceIds.antt =====
-- The ids of traces that services/api/src/index.ts makes.
use Prim.Native.Char.{Char, code}
use cloud_code_execution_eng.Prelude.{
  le→leb, ℕ, ◌-◌, ◌≤◌, ◌≡◌, ◌⊎◌, refl, String, true, some, leb, ltb, trim, first_units, Bool-cases,
  inl, inr, arith, or_else,
}
use cloud_code_execution_eng.Common.Schema.{units, trace_fits}
use cloud_code_execution_eng.Api.Headers.{
  Header, is_allowed, replace_others, normalize_trace_id, coerce_trace_id, get_trace_id,
  get_header_value,
}

-- Every character is allowed in the id of a trace.
abbrev pub AllAllowed : String → Type 0
AllAllowed String.[] = Unit
AllAllowed (String.◌∷◌ c s) = (is_allowed (code c) ≡ true) × AllAllowed s

replace_others-AllAllowed : (s : String) → AllAllowed (replace_others s)
unfolding replace_others is_allowed
replace_others-AllAllowed String.[] = tt
replace_others-AllAllowed (String.◌∷◌ c s) = elim (Bool-cases (is_allowed (code c))) [
  | inl good ↦ rw good (good, replace_others-AllAllowed s)
  | inr bad ↦ elim (Bool-cases (ltb (code c) 65536)) [
    | inl one ↦ rw (bad, one) (refl, replace_others-AllAllowed s)
    | inr two ↦ rw (bad, two) (refl, (refl, replace_others-AllAllowed s))
  ]
]

is_allowed-narrow : (c : Char) → is_allowed (code c) ≡ true → ltb (code c) 65536 ≡ true
unfolding is_allowed
is_allowed-narrow c h = ground arith

-- A piece of such a text is one, and no longer than asked for.
first_units-AllAllowed :
    (n : ℕ) (s : String)
    → AllAllowed s
    → AllAllowed (first_units n s) × (units (first_units n s) ≤ n)
unfolding first_units units
first_units-AllAllowed n String.[] h = (tt, omega arith)
first_units-AllAllowed n (String.◌∷◌ c s) (good, h) =
    let narrow = is_allowed-narrow c good in
    let rest = first_units-AllAllowed (n - 1) s h in
    elim (Bool-cases (leb 1 n)) [
      | inl room ↦ rw (narrow, room) ((good, rest.0), ground arith)
      | inr full ↦ let none_left : n ≡ 0 = ground arith in rw (narrow, none_left) (tt, omega arith)
    ]

-- The id of a trace is a random id, or has 8 to 128 units, all of allowed characters; in both
-- cases the schema of the queue accepts it, if a random id has 36.
pub get_trace_id-AllAllowed :
    (random_uuid : String) (requested : Header) (request_id : String)
    → units random_uuid ≡ 36
    → ((get_trace_id random_uuid requested request_id ≡ random_uuid)
        ⊎ AllAllowed (get_trace_id random_uuid requested request_id))
      × (trace_fits (some (get_trace_id random_uuid requested request_id)) ≡ true)
unfolding get_trace_id coerce_trace_id normalize_trace_id
get_trace_id-AllAllowed random_uuid requested request_id long =
    coerced (or_else (get_header_value requested) request_id)
  where
    coerced :
        (value : String)
        → ((coerce_trace_id random_uuid value ≡ random_uuid)
            ⊎ AllAllowed (coerce_trace_id random_uuid value))
          × (trace_fits (some (coerce_trace_id random_uuid value)) ≡ true)
    coerced value =
        let fitting =
          first_units-AllAllowed 128 (replace_others (trim value))
            (replace_others-AllAllowed (trim value)) in
        elim (Bool-cases (leb 8 (units (normalize_trace_id value)))) [
          | inl enough ↦
              rw enough
                (inr fitting.0, rw enough (le→leb (units (normalize_trace_id value)) 128 fitting.1))
          | inr short ↦ rw short (inl refl, rw long refl)
        ]
