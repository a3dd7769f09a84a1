-- ===== src/Api/Headers/Bearer.antt =====
-- Which tokens getBearerToken of services/api/src/index.ts reads.
use Prim.Native.Char.{Char, code}
use Prim.Native.String.{◌++◌}
use Prim.Native.String.append
use cloud_code_execution_eng.Prelude.{
  ◌≡◌, ◌≢◌, refl, ap, ◌∙◌, String, true, false, some, ◌===◌, is_blank, skip_blanks, trim, trim_end,
  Bool-cases, inl, inr, arith, eq_iff,
}
use cloud_code_execution_eng.Api.Headers.{single, get_bearer_token, get_header_value, is_line}

-- A token has no blank in it; a line ends with a blank.
abbrev pub HasNoBlank : String → Type 0
HasNoBlank String.[] = Unit
HasNoBlank (String.◌∷◌ c s) = (is_blank (code c) ≡ false) × HasNoBlank s

HasNoBlank-is_line : (s : String) → HasNoBlank s → is_line s ≡ true
unfolding is_blank
HasNoBlank-is_line String.[] h = refl
HasNoBlank-is_line (String.◌∷◌ c s) (b, h) = ground (arith, HasNoBlank-is_line s h)

trim_end-HasNoBlank : (s : String) → HasNoBlank s → trim_end s ≡ s
unfolding trim_end is_blank
trim_end-HasNoBlank String.[] h = refl
trim_end-HasNoBlank (String.◌∷◌ c s) (b, h) = rw (b, trim_end-HasNoBlank s h) refl

skip_blanks-HasNoBlank : (s : String) → HasNoBlank s → skip_blanks s ≡ s
unfolding skip_blanks is_blank
skip_blanks-HasNoBlank String.[] h = refl
skip_blanks-HasNoBlank (String.◌∷◌ c s) (b, h) = rw b refl

ne_test : (s t : String) → s ≢ t → (s === t) ≡ false
ne_test s t differ = elim (Bool-cases (s === t)) [
  | inl same ↦ absurd (differ ((eq_iff s t).0 same))
  | inr other ↦ other
]

-- Behind a text that is not empty and loses nothing, no character is lost.
trim_end-cons :
    (c : Char) (s : String) → s ≢ "" → trim_end s ≡ s → trim_end (String.◌∷◌ c s) ≡ String.◌∷◌ c s
unfolding trim_end
trim_end-cons c s filled kept =
    let differs : (s === "") ≡ false = ne_test s "" filled in
    elim (Bool-cases (is_blank (code c))) [
      | inl blank ↦ rw (kept, blank, differs) refl
      | inr other ↦ rw (kept, other) refl
    ]

cons-ne : (c : Char) (s : String) → String.◌∷◌ c s ≢ ""
cons-ne c s same = cc same

prefixed : String → String
prefixed token = String.◌∷◌ "B" (
    String.◌∷◌ "e"
      (String.◌∷◌ "a" (String.◌∷◌ "r" (String.◌∷◌ "e" (String.◌∷◌ "r" (String.◌∷◌ " " token))))))

append-prefixed : (token : String) → "Bearer " ++ token ≡ prefixed token
unfolding prefixed
append-prefixed token =
    append.cons "B" "earer " token
    ∙ ap (String.◌∷◌ "B") (
        append.cons "e" "arer " token
        ∙ ap (String.◌∷◌ "e") (
            append.cons "a" "rer " token
            ∙ ap (String.◌∷◌ "a") (
                append.cons "r" "er " token
                ∙ ap (String.◌∷◌ "r") (
                    append.cons "e" "r " token
                    ∙ ap (String.◌∷◌ "e") (
                        append.cons "r" " " token
                        ∙ ap (String.◌∷◌ "r")
                            (append.cons " " "" token ∙ ap (String.◌∷◌ " ") (append.nil token)))))))

trim_end-prefixed :
    (token : String)
    → token ≢ ""
    → trim_end token ≡ token
    → trim_end (prefixed token) ≡ prefixed token
unfolding prefixed
trim_end-prefixed token filled kept =
    let s1 = trim_end-cons " " token filled kept in
    let s2 = trim_end-cons "r" _ (cons-ne " " token) s1 in
    let s3 = trim_end-cons "e" _ (cons-ne "r" _) s2 in
    let s4 = trim_end-cons "r" _ (cons-ne "e" _) s3 in
    let s5 = trim_end-cons "a" _ (cons-ne "r" _) s4 in
    let s6 = trim_end-cons "e" _ (cons-ne "a" _) s5 in trim_end-cons "B" _ (cons-ne "e" _) s6

-- A token that is not empty and has no blank in it is read back from the header that names it.
pub get_bearer_token-single :
    (token : String)
    → token ≢ ""
    → HasNoBlank token
    → get_bearer_token (single ("Bearer " ++ token)) ≡ some token
unfolding get_bearer_token get_header_value trim skip_blanks is_blank prefixed
get_bearer_token-single token filled unbroken =
    let kept = trim_end-HasNoBlank token unbroken in
    let whole = trim_end-prefixed token filled kept in
    let differs = ne_test token "" filled in
    let named = ne_test (prefixed token) "" (cons-ne "B" _) in
    ap (λ t. get_bearer_token (single t)) (append-prefixed token)
    ∙ rw
        (
          kept,
          differs,
          named,
          skip_blanks-HasNoBlank token unbroken,
          HasNoBlank-is_line token unbroken,
          skip_blanks-HasNoBlank token unbroken,
          kept,
          differs,
        )
        refl
