-- ===== src/Tenants/Registry.antt =====
-- services/api/src/tenants.ts: loadTenantApiKeys and loadTenantPolicies, once JSON and the schemas
-- have read the two texts; and services/api/src/index.ts: the registry of policies. A Map is the
-- list of its entries, in the order in which their keys came.
use cloud_code_execution_eng.Prelude.{
  Option-cases, ℕ, ◌≡◌, refl, sym, ap, ◌∙◌, String, Bool, true, false, Option, none, some, List, [],
  ◌∷◌, map, ◌===◌, if◌then◌else◌, Bool-cases, inl, inr, arith, eq_iff,
}
use cloud_code_execution_eng.Tenants.{TenantPolicy, TenantPrincipal}

module _ {ℓ} {A : Type ℓ} where
  abbrev pub lookup : String → List (String × A) → Option A
  lookup k [] = none
  lookup k ((j, v) ∷ entries) = if j === k then some v else lookup k entries

  -- `map.set(k, v)`: a key keeps its place.
  abbrev pub set_entry : String → A → List (String × A) → List (String × A)
  set_entry k v [] = (k, v) ∷ []
  set_entry k v ((j, u) ∷ entries) =
      if j === k then (k, v) ∷ entries else (j, u) ∷ set_entry k v entries

  abbrev pub set_all : List (String × A) → List (String × A) → List (String × A)
  set_all [] m = m
  set_all ((k, v) ∷ entries) m = set_all entries (set_entry k v m)

  abbrev pub otherwise : Option A → Option A → Option A
  otherwise (some v) other = some v
  otherwise none other = other

  -- The value that the last entry for a key has.
  abbrev pub last_entry : String → List (String × A) → Option A
  last_entry k [] = none
  last_entry k ((j, v) ∷ entries) =
      otherwise (last_entry k entries) (if j === k then some v else none)

-- The limits of a tenant, whose id the key is.
pub record PolicyLimits : Type 0 where
  pub max_concurrent_jobs : ℕ
  pub max_daily_jobs : ℕ

unfoldable pub load_tenant_api_keys :
    (String → String) → List (String × TenantPolicy) → List (String × TenantPrincipal)
load_tenant_api_keys fingerprint entries =
    set_all
      (map
        (λ (e : String × TenantPolicy).
          (e.0, record { policy = e.1; api_key_fingerprint = fingerprint e.0 }))
        entries)
      []

unfoldable pub load_tenant_policies : List (String × PolicyLimits) → List (String × TenantPolicy)
load_tenant_policies entries =
    set_all
      (map
        (λ (e : String × PolicyLimits). (
          e.0,
          record {
            tenant_id = e.0;
            max_concurrent_jobs = e.1.max_concurrent_jobs;
            max_daily_jobs = e.1.max_daily_jobs;
          },
        ))
        entries)
      []

abbrev has : String → List (String × TenantPolicy) → Bool
has k m = present (lookup k m)
  where
    present : Option TenantPolicy → Bool
    present none = false
    present (some p) = true

-- The loop over the principals of the keys.
abbrev add_missing :
    List (String × TenantPrincipal) → List (String × TenantPolicy) → List (String × TenantPolicy)
add_missing [] m = m
add_missing ((key, tenant) ∷ tenants) m =
    add_missing tenants
      (if has tenant.tenant_id m then m else set_entry tenant.tenant_id tenant.policy m)

unfoldable pub tenant_policy_registry :
    List (String × TenantPrincipal) → List (String × TenantPolicy) → List (String × TenantPolicy)
tenant_policy_registry registry configured = set_all configured (add_missing registry [])

-- The policy of the first key of a tenant.
abbrev pub first_policy : String → List (String × TenantPrincipal) → Option TenantPolicy
first_policy t [] = none
first_policy t ((key, tenant) ∷ tenants) =
    if tenant.tenant_id === t then some tenant.policy else first_policy t tenants

lookup-set_entry {ℓ} :
    {A : Type ℓ} (k j : String) (v : A) (m : List (String × A))
    → lookup j (set_entry k v m) ≡ (if k === j then some v else lookup j m)
lookup-set_entry k j v [] = refl
lookup-set_entry k j v ((i, u) ∷ m) = elim (Bool-cases (i === k)) [
  | inl same ↦ rw same (ground (arith, eq_iff k j, eq_iff i k, eq_iff i j))
  | inr other ↦
      rw other (ground (arith, lookup-set_entry k j v m, eq_iff k j, eq_iff i k, eq_iff i j))
]

-- After all entries were set, a key has the value of its last entry, or the one from before.
pub lookup-set_all {ℓ} :
    {A : Type ℓ} (j : String) (entries m : List (String × A))
    → lookup j (set_all entries m) ≡ otherwise (last_entry j entries) (lookup j m)
lookup-set_all j [] m = refl
lookup-set_all j ((k, v) ∷ entries) m =
    lookup-set_all j entries (set_entry k v m) ∙ ground (arith, lookup-set_entry k j v m)

pub otherwise-none {ℓ} : {A : Type ℓ} (o : Option A) → otherwise o none ≡ o
otherwise-none none = refl
otherwise-none (some v) = refl

add_missing-step :
    (t : String) (policy : TenantPolicy) (m : List (String × TenantPolicy))
    → lookup t (if has policy.tenant_id m then m else set_entry policy.tenant_id policy m)
      ≡ otherwise (lookup t m) (if policy.tenant_id === t then some policy else none)
add_missing-step t policy m =
    let id = policy.tenant_id in
    elim (Option-cases (lookup id m)) [
      | inl absent ↦ elim (Bool-cases (id === t)) [
        | inl same ↦
            let none_yet : lookup t m ≡ none =
              ap (λ k. lookup k m) (sym ((eq_iff id t).0 same)) ∙ absent in
            rw absent (lookup-set_entry id t policy m ∙ rw (same, none_yet) refl)
        | inr other ↦
            rw absent
              (lookup-set_entry id t policy m ∙ rw other (sym (otherwise-none (lookup t m))))
      ]
      | inr (p, found) ↦ elim (Bool-cases (id === t)) [
        | inl same ↦
            let kept : lookup t m ≡ some p =
              ap (λ k. lookup k m) (sym ((eq_iff id t).0 same)) ∙ found in
            rw found (rw kept refl)
        | inr other ↦ rw (found, other) (sym (otherwise-none (lookup t m)))
      ]
    ]

lookup-add_missing :
    (t : String) (tenants : List (String × TenantPrincipal)) (m : List (String × TenantPolicy))
    → lookup t (add_missing tenants m) ≡ otherwise (lookup t m) (first_policy t tenants)
lookup-add_missing t [] m = ground arith
lookup-add_missing t ((key, tenant) ∷ tenants) m =
    lookup-add_missing t tenants
      (if has tenant.tenant_id m then m else set_entry tenant.tenant_id tenant.policy m)
    ∙ ground (arith, add_missing-step t tenant.policy m)

-- A tenant's policy is the one that is configured for it, the last if there are several; without
-- one it is that of the tenant's first key, and a tenant with neither has none.
pub lookup-tenant_policy_registry :
    (t : String) (registry : List (String × TenantPrincipal))
    (configured : List (String × TenantPolicy))
    → lookup t (tenant_policy_registry registry configured)
      ≡ otherwise (last_entry t configured) (first_policy t registry)
unfolding tenant_policy_registry
lookup-tenant_policy_registry t registry configured =
    lookup-set_all t configured (add_missing registry [])
    ∙ ap (otherwise (last_entry t configured)) (lookup-add_missing t registry [])
