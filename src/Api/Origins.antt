-- ===== src/Api/Origins.antt =====
-- services/api/src/index.ts: the origins that CORS allows.
use Prim.Native.String.{◌++◌, slice}
use Prim.Native.String.append
use text.Mathlib.Text.{starts_with}
use text.Mathlib.TextEquality.{starts_with_iff}
use text.Mathlib.TextPositions.{len-append, slice-append_right}
use cloud_code_execution_eng.Prelude.{
  ◌≡◌, ◌⊎◌, refl, sym, ap, ◌∙◌, String, Bool, true, false, ◌&&◌, ◌||◌, not, List, [], ◌∷◌, len, any,
  keep, map, trim, ◌===◌, if◌then◌else◌, inl, inr, Bool-cases, arith, eq_iff,
}
use cloud_code_execution_eng.Api.Headers.{split_commas}

-- `text.slice(prefix.length)`, for a prefix in ASCII.
abbrev behind : String → String → String
behind prefix s = slice s (len prefix) (len s)

-- `text.endsWith(suffix)`.
abbrev ends_with : String → String → Bool
ends_with String.[] suffix = "" === suffix
ends_with (String.◌∷◌ c s) suffix = String.◌∷◌ c s === suffix || ends_with s suffix

-- The origin is one of the hosts below the suffix, by the same scheme.
abbrev under : String → String → String → Bool
under scheme suffix origin =
    starts_with origin scheme && ends_with (behind scheme origin) ("." ++ suffix)

abbrev matches_origin : String → String → Bool
matches_origin origin allowed_origin =
    if allowed_origin === origin
    then true
    else if starts_with allowed_origin "https://*."
    then under "https://" (behind "https://*." allowed_origin) origin
    else if starts_with allowed_origin "http://*."
    then under "http://" (behind "http://*." allowed_origin) origin
    else false

-- The origins of the configuration, which separates them by commas.
unfoldable pub cors_allowed_origins : String → List String
cors_allowed_origins value = keep (λ origin. not (origin === "")) (map trim (split_commas value))

unfoldable pub is_allowed_origin : List String → String → Bool
is_allowed_origin allowed origin = any (matches_origin origin) allowed

-- The entry names the origin, or a set of hosts by a wildcard to which it belongs.
abbrev pub Under : String → String → String → Type 0
Under scheme entry origin =
    (suffix : String) × (host : String) × (entry ≡ (scheme ++ "*.") ++ suffix)
    × (origin ≡ scheme ++ (host ++ ("." ++ suffix)))

abbrev pub Covers : String → String → Type 0
Covers entry origin =
    (entry ≡ origin) ⊎ (Under "https://" entry origin ⊎ Under "http://" entry origin)

abbrev pub Some : List String → String → Type 0
Some [] origin = ⊥
Some (entry ∷ entries) origin = Covers entry origin ⊎ Some entries origin

behind-starts_with :
    (prefix s : String) → starts_with s prefix ≡ true → s ≡ prefix ++ behind prefix s
behind-starts_with prefix s h =
    let (u, e) = (starts_with_iff s prefix).0 h in
    let rest : behind prefix s ≡ u =
      ap (behind prefix) (sym e)
      ∙ ap (λ k. slice (prefix ++ u) (len prefix) k) (len-append prefix u)
      ∙ slice-append_right prefix u in
    sym e ∙ ap (λ t. prefix ++ t) (sym rest)

ends_with-append :
    (s suffix : String) → ends_with s suffix ≡ true → (host : String) × (s ≡ host ++ suffix)
ends_with-append String.[] suffix h = ("", (eq_iff "" suffix).0 h ∙ sym (append.nil suffix))
ends_with-append (String.◌∷◌ c s) suffix h = elim (Bool-cases (String.◌∷◌ c s === suffix)) [
  | inl same ↦ ("", (eq_iff (String.◌∷◌ c s) suffix).0 same ∙ sym (append.nil suffix))
  | inr longer ↦
      let (host, e) = ends_with-append s suffix (ground arith) in
      (String.◌∷◌ c host, ap (String.◌∷◌ c) e ∙ sym (append.cons c host suffix))
]

under-Under :
    (scheme wild entry origin : String)
    → wild ≡ scheme ++ "*."
    → starts_with entry wild ≡ true
    → under scheme (behind wild entry) origin ≡ true
    → Under scheme entry origin
under-Under scheme wild entry origin e named h =
    let suffix = behind wild entry in
    let (host, f) = ends_with-append (behind scheme origin) ("." ++ suffix) (ground arith) in
    (
      suffix,
      host,
      behind-starts_with wild entry named ∙ ap (λ w. w ++ suffix) e,
      behind-starts_with scheme origin (ground arith) ∙ ap (λ t. scheme ++ t) f,
    )

matches_origin-Covers :
    (entry origin : String) → matches_origin origin entry ≡ true → Covers entry origin
matches_origin-Covers entry origin h = elim (Bool-cases (entry === origin)) [
  | inl same ↦ inl ((eq_iff entry origin).0 same)
  | inr apart ↦ elim (Bool-cases (starts_with entry "https://*.")) [
    | inl secure ↦ inr (
        inl
          (under-Under "https://" "https://*." entry origin refl secure (rw (apart, secure) at h)))
    | inr open_scheme ↦ elim (Bool-cases (starts_with entry "http://*.")) [
      | inl plain ↦ inr (
          inr (
            under-Under "http://" "http://*." entry origin refl plain
              (rw (apart, open_scheme, plain) at h)))
      | inr none_named ↦
          let impossible : false ≡ true = rw (apart, open_scheme, none_named) at h in cc impossible
    ]
  ]
]

-- An origin is allowed only if an entry of the configuration is that origin, or is a wildcard with
-- the same scheme, below whose domain it lies.
pub is_allowed_origin-Some :
    (entries : List String) (origin : String)
    → is_allowed_origin entries origin ≡ true
    → Some entries origin
unfolding is_allowed_origin
is_allowed_origin-Some [] origin h = cc
is_allowed_origin-Some (entry ∷ entries) origin h =
    elim (Bool-cases (matches_origin origin entry)) [
      | inl this ↦ inl (matches_origin-Covers entry origin this)
      | inr other ↦ inr (is_allowed_origin-Some entries origin (rw other at h))
    ]
