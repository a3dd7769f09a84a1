-- ===== src/Api/Auth/Admins.antt =====
-- Who passes requireAdmin of services/api/src/index.ts with the keys that parseAdminKeys gives.
use cloud_code_execution_eng.Prelude.{
  sym, ◌∙◌, subst, ℕ, ◌≡◌, refl, String, true, false, ◌||◌, not, keep, eq_iff, Option, none, some,
  List, [], ◌∷◌, ◌===◌, Bool-cases, inl, inr, arith,
}
use cloud_code_execution_eng.Effect.{
  Delivery, delivered, dropped, unacknowledged, Result, ok, World,
}
use cloud_code_execution_eng.Services.{Services, Store}
use cloud_code_execution_eng.Tenants.{TenantPrincipal}
use cloud_code_execution_eng.Redis.Hashes.{Updates}
use cloud_code_execution_eng.Api.Http.{Request, ApiConfig}
use cloud_code_execution_eng.Api.Auth.{
  Gate, passes, Claims, admin_denied, mapped, require_admin_key, require_admin,
}
use cloud_code_execution_eng.Api.Settings.{
  ParsedJson, not_json, array, other_json, parse_admin_keys, admin_keys_in, has_key,
}

has_key-keep :
    (items : List String) (key : String)
    → has_key (keep (λ item. not (item === "")) items) key ≡ true
    → (has_key items key ≡ true) × ((key === "") ≡ false)
has_key-keep [] key h = absurd (cc h)
has_key-keep (item ∷ items) key h = elim (Bool-cases (item === "")) [
  | inl empty ↦
      let later : has_key (keep (λ i. not (i === "")) items) key ≡ true = rw empty at h in
      let (held, filled) = has_key-keep items key later in (rw held (ground arith), filled)
  | inr filled ↦
      let here : ((item === key) || has_key (keep (λ i. not (i === "")) items) key) ≡ true =
        rw filled at h in
      elim (Bool-cases (item === key)) [
        | inl same ↦ (rw same refl, ground (arith, eq_iff item key, eq_iff item "", eq_iff key ""))
        | inr other ↦
            let (held, written) = has_key-keep items key (rw other at here) in
            (rw (other, held) refl, written)
      ]
]

module _ (config : ApiConfig) (verify : String → Option Claims) (fingerprint : String → String)
    (sv : Services) (request : Request) (parse : String → ParsedJson) (value : String) where
  -- What is known of an admin: the key of the request, from the list, and its tenant.
  pub record IsAdmin (key : String) (tenant : TenantPrincipal) : Type 0 where
    pub sent : request.api_key ≡ some key
    pub written : (key === "") ≡ false
    pub items : List String
    pub parsed : parse value ≡ array items
    pub listed : has_key items key ≡ true
    pub known : config.tenant_registry key ≡ some tenant

  abbrev Passes :
      Result (Gate (String × TenantPrincipal)) → String → TenantPrincipal → Updates → Type 0
  Passes r key tenant headers = r ≡ ok (passes (key, tenant) headers)

  admin_denied-None :
      (action error : String) (code : ℕ) (net : List Delivery) (s : Store sv) (key : String)
      (tenant : TenantPrincipal) (headers : Updates)
      → Passes
          (admin_denied config verify fingerprint sv request action error code
            (record { net = net; store = s })).0
          key
          tenant
          headers
      → ⊥
  admin_denied-None action error code [] s key tenant headers e = cc e
  admin_denied-None action error code (delivered ∷ net) s key tenant headers e = cc e
  admin_denied-None action error code (dropped m ∷ net) s key tenant headers e = cc e
  admin_denied-None action error code (unacknowledged m ∷ net) s key tenant headers e = cc e

  keys-array :
      (p : ParsedJson) (key : String)
      → has_key (admin_keys_in p) key ≡ true
      → (items : List String) × (p ≡ array items)
        × (has_key items key ≡ true)
        × ((key === "") ≡ false)
  keys-array not_json key h = absurd (cc h)
  keys-array other_json key h = absurd (cc h)
  keys-array (array items) key h =
      let (held, filled) = has_key-keep items key h in (items, refl, held, filled)

  mapped-IsAdmin :
      (sent key : String) (known : Option TenantPrincipal) (w : World (Store sv))
      (tenant : TenantPrincipal) (headers : Updates)
      → Passes (mapped config verify fingerprint sv request sent known w).0 key tenant headers
      → (sent ≡ key) × (known ≡ some tenant)
  mapped-IsAdmin sent key none w tenant headers e = absurd (cc e)
  mapped-IsAdmin sent key (some t) w tenant headers e = (cc e, cc e)

  -- Whatever the network loses, if the keys of the admins are those of the configured text, a
  -- request passes the check of the admins only with a key that is not empty and that the text, as
  -- a JSON array, lists, and as the tenant of that key.
  pub require_admin-IsAdmin :
      (w : World (Store sv)) (key : String) (tenant : TenantPrincipal) (headers : Updates)
      → ((k : String) → config.is_admin_key k ≡ has_key (parse_admin_keys parse value) k)
      → (require_admin config verify fingerprint sv request w).0 ≡ ok (passes (key, tenant) headers)
      → IsAdmin key tenant
  unfolding require_admin parse_admin_keys
  require_admin-IsAdmin w key tenant headers configured e = decide request.api_key refl e
    where
      decide :
          (given : Option String)
          → request.api_key ≡ given
          → Passes
              (require_admin_key config verify fingerprint sv request given w).0
              key
              tenant
              headers
          → IsAdmin key tenant
      decide none sent h = absurd (
          admin_denied-None "admin_auth_missing" "admin_auth_missing" 401 w.net w.store key tenant
            headers h)
      decide (some k) sent h = elim (Bool-cases (config.is_admin_key k)) [
        | inr other ↦ absurd (
            admin_denied-None "admin_auth_denied" "admin_forbidden" 403 w.net w.store key tenant
              headers (rw other at h))
        | inl listed ↦
            let (same, known) =
              mapped-IsAdmin k key (config.tenant_registry k) w tenant headers (rw listed at h) in
            let (items, parsed, held, filled) =
              keys-array (parse value) k (sym (configured k) ∙ listed) in
            subst (λ x. IsAdmin x tenant) same
              (record {
                sent = sent;
                written = filled;
                items = items;
                parsed = parsed;
                listed = held;
                known = known;
              })
      ]
