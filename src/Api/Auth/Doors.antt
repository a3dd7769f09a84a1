-- ===== src/Api/Auth/Doors.antt =====
-- Whom services/api/src/index.ts lets in.
use Prim.Native.String.{◌++◌}
use cloud_code_execution_eng.Prelude.{
  ℕ, ◌≡◌, refl, sym, ap, ◌∙◌, subst, Option-cases, Bool-cases, inl, inr, String, true, not, Option,
  none, some, if◌then◌else◌,
}
use cloud_code_execution_eng.Tenants.{TenantPolicy, TenantPrincipal}
use cloud_code_execution_eng.Api.Http.{Request, AuthMode, api_key, jwt, hybrid, ApiConfig}
use cloud_code_execution_eng.Api.Auth.{
  AuthType, by_api_key, by_jwt, AuthenticatedTenant, Claims, PrincipalResolution, resolved, refused,
  registered, resolve_api_key_principal, resolve_jwt_principal, resolve_in, with_payload,
  with_claims, with_policy, resolve_hybrid,
}

module _ (config : ApiConfig) (verify : String → Option Claims)
    (fingerprint : String → String) where
  -- The tenant of a key in the registry.
  pub record HoldsKey (request : Request) (t : AuthenticatedTenant) : Type 0 where
    pub key : String
    pub sent : request.api_key ≡ some key
    pub registered_key : config.tenant_registry key ≡ some t.principal

  -- The tenant of a token that verifies, whose policy is configured.
  pub record HoldsToken (request : Request) (t : AuthenticatedTenant) : Type 0 where
    pub token : String
    pub sent : request.bearer_token ≡ some token
    pub claims : Claims
    pub configured : config.jwt_configured ≡ true
    pub verified : verify token ≡ some claims
    pub tenant_claimed : claims.tenant_claim ≡ some t.principal.tenant_id
    pub subject_claimed : claims.subject_claim ≡ some t.subject
    pub policy : TenantPolicy
    pub policy_known : config.tenant_policy_registry t.principal.tenant_id ≡ some policy
    pub concurrent_is : t.principal.max_concurrent_jobs ≡ policy.max_concurrent_jobs
    pub daily_is : t.principal.max_daily_jobs ≡ policy.max_daily_jobs

  -- A tenant by key holds a key, where keys are accepted; a tenant by token holds a token.
  abbrev pub IsEntitled : AuthMode → Request → AuthenticatedTenant → AuthType → Type 0
  IsEntitled jwt request t by_api_key = ⊥
  IsEntitled api_key request t by_jwt = ⊥
  IsEntitled api_key request t by_api_key = HoldsKey request t
  IsEntitled hybrid request t by_api_key = HoldsKey request t × (request.bearer_token ≡ none)
  IsEntitled jwt request t by_jwt = HoldsToken request t
  IsEntitled hybrid request t by_jwt = HoldsToken request t

  abbrev key_tenant : TenantPrincipal → AuthenticatedTenant
  key_tenant p = record { principal = p; auth_type = by_api_key; subject = p.api_key_fingerprint }

  -- A tenant is let in by key with the limits of that key, or by token with the limits of the
  -- tenant that the token names.
  pub record LetsIn (mode : AuthMode) (request : Request) (t : AuthenticatedTenant) : Type 0 where
    pub entitled : IsEntitled mode request t t.auth_type

  tenant_of : PrincipalResolution → AuthenticatedTenant → AuthenticatedTenant
  tenant_of (resolved t) d = t
  tenant_of (refused _ _) d = d

  same_tenant :
      (t u : AuthenticatedTenant) → ◌≡◌ {A = PrincipalResolution} (resolved t) (resolved u) → t ≡ u
  unfolding tenant_of
  same_tenant t u h = ap (λ r. tenant_of r t) h

  wrong :
      (reason : String) (code : ℕ) (t : AuthenticatedTenant)
      → ◌≡◌ {A = PrincipalResolution} (refused reason code) (resolved t)
      → ⊥
  wrong reason code t h = cc

  key-HoldsKey :
      (request : Request) (k : Option String) (t : AuthenticatedTenant)
      → request.api_key ≡ k
      → resolve_api_key_principal config verify fingerprint k ≡ resolved t
      → HoldsKey request t × (t.auth_type ≡ by_api_key)
  unfolding resolve_api_key_principal
  key-HoldsKey request none t sent h = elim (wrong _ _ t h) [ ]
  key-HoldsKey request (some key) t sent h = elim (Option-cases (config.tenant_registry key)) [
    | inl e ↦ elim (wrong _ _ t (sym (ap registered e) ∙ h)) [ ]
    | inr (p, e) ↦
        let same = same_tenant (key_tenant p) t (sym (ap registered e) ∙ h) in
        (
          record { key = key; sent = sent; registered_key = e ∙ ap (λ u. some u.principal) same },
          sym (ap (λ u. u.auth_type) same),
        )
  ]

  jwt_tenant : String → String → TenantPolicy → AuthenticatedTenant
  jwt_tenant tenant_id subject policy = record {
    principal = record {
      policy = record {
        tenant_id = tenant_id;
        max_concurrent_jobs = policy.max_concurrent_jobs;
        max_daily_jobs = policy.max_daily_jobs;
      };
      api_key_fingerprint = fingerprint ("jwt:" ++ (tenant_id ++ (":" ++ subject)));
    };
    auth_type = by_jwt;
    subject = subject;
  }

  claims-HoldsToken :
      (request : Request) (token : String) (claims : Claims) (t : AuthenticatedTenant)
      (a b : Option String)
      → request.bearer_token ≡ some token
      → config.jwt_configured ≡ true
      → verify token ≡ some claims
      → claims.tenant_claim ≡ a
      → claims.subject_claim ≡ b
      → with_claims config verify fingerprint a b ≡ resolved t
      → HoldsToken request t × (t.auth_type ≡ by_jwt)
  unfolding jwt_tenant
  claims-HoldsToken request token claims t none b sent on v ea eb h = elim (wrong _ _ t h) [ ]
  claims-HoldsToken request token claims t (some x) none sent on v ea eb h =
      elim (wrong _ _ t h) [ ]
  claims-HoldsToken request token claims t (some x) (some y) sent on v ea eb h =
      elim (Option-cases (config.tenant_policy_registry x)) [
        | inl e ↦
            elim (wrong _ _ t (sym (ap (with_policy config verify fingerprint x y) e) ∙ h)) [ ]
        | inr (policy, e) ↦
            let same =
              same_tenant (jwt_tenant x y policy) t
                (sym (ap (with_policy config verify fingerprint x y) e) ∙ h) in
            (
              record {
                token = token;
                sent = sent;
                claims = claims;
                configured = on;
                verified = v;
                tenant_claimed = ea ∙ ap (λ u. some u.principal.tenant_id) same;
                subject_claimed = eb ∙ ap (λ u. some u.subject) same;
                policy = policy;
                policy_known =
                    ap (λ u. config.tenant_policy_registry u.principal.tenant_id) (sym same) ∙ e;
                concurrent_is = ap (λ u. u.principal.max_concurrent_jobs) (sym same);
                daily_is = ap (λ u. u.principal.max_daily_jobs) (sym same);
              },
              sym (ap (λ u. u.auth_type) same),
            )
      ]

  token-HoldsToken :
      (request : Request) (k : Option String) (t : AuthenticatedTenant)
      → request.bearer_token ≡ k
      → resolve_jwt_principal config verify fingerprint k ≡ resolved t
      → HoldsToken request t × (t.auth_type ≡ by_jwt)
  unfolding resolve_jwt_principal
  token-HoldsToken request none t sent h = elim (wrong _ _ t h) [ ]
  token-HoldsToken request (some token) t sent h = elim (Bool-cases config.jwt_configured) [
    | inr e ↦
        elim (wrong _ _ t (
          sym (
            ap
              (λ b.
                if not b
                then refused "jwt_not_configured" 401
                else with_payload config verify fingerprint (verify token))
              e)
          ∙ h)) [ ]
    | inl e ↦
        let on =
          sym (
            ap
              (λ b.
                if not b
                then refused "jwt_not_configured" 401
                else with_payload config verify fingerprint (verify token))
              e)
          ∙ h in
        elim (Option-cases (verify token)) [
          | inl v ↦
              elim (wrong _ _ t (sym (ap (with_payload config verify fingerprint) v) ∙ on)) [ ]
          | inr (claims, v) ↦
              claims-HoldsToken request token claims t claims.tenant_claim claims.subject_claim sent
                e v refl refl (sym (ap (with_payload config verify fingerprint) v) ∙ on)
        ]
  ]

  -- In every mode a tenant is let in only with a registered key, with that key's principal, or
  -- with a verified token whose tenant has a configured policy, with that policy's limits.
  pub resolve_in-LetsIn :
      (mode : AuthMode) (request : Request) (t : AuthenticatedTenant)
      → resolve_in config verify fingerprint mode request ≡ resolved t
      → LetsIn mode request t
  resolve_in-LetsIn api_key request t h =
      let (holds, by) = key-HoldsKey request request.api_key t refl h in
      record { entitled = subst (IsEntitled api_key request t) (sym by) holds }
  resolve_in-LetsIn jwt request t h =
      let (holds, by) = token-HoldsToken request request.bearer_token t refl h in
      record { entitled = subst (IsEntitled jwt request t) (sym by) holds }
  resolve_in-LetsIn hybrid request t h = elim (Option-cases request.bearer_token) [
    | inl e ↦
        let (holds, by) =
          key-HoldsKey request request.api_key t refl
            (sym (ap (λ k. resolve_hybrid config verify fingerprint k request.api_key) e) ∙ h) in
        record { entitled = subst (IsEntitled hybrid request t) (sym by) (holds, e) }
    | inr (token, e) ↦
        let (holds, by) =
          token-HoldsToken request (some token) t e
            (sym (ap (λ k. resolve_hybrid config verify fingerprint k request.api_key) e) ∙ h) in
        record { entitled = subst (IsEntitled hybrid request t) (sym by) holds }
  ]
