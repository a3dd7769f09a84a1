-- ===== src/Api/AdminMetrics/Chosen.antt =====
-- Which policy and which services app.get("/v1/admin/metrics") of services/api/src/index.ts shows.
use cloud_code_execution_eng.Prelude.{
  ◌≡◌, refl, ap, ◌∙◌, Option-cases, ◌⊎◌, String, true, false, Option, none, some, List, [], ◌∷◌,
  ◌===◌, Bool-cases, inl, inr, arith, All,
}
use cloud_code_execution_eng.Effect.{ok}
use cloud_code_execution_eng.Tenants.Registry.{otherwise-none, last_entry, lookup-set_all}
use cloud_code_execution_eng.Api.AdminMetrics.{
  Policy, is_tracking, first_tracking, find_policy, EcsService, services, view_of, by_name,
  describe_ecs,
}

first_tracking-All :
    (policies : List Policy)
    → first_tracking policies ≡ none
    → All (λ p. is_tracking p ≡ false) policies
first_tracking-All [] h = tt
first_tracking-All (p ∷ ps) h = elim (Bool-cases (is_tracking p)) [
  | inl tracks ↦ let impossible : some p ≡ none = rw tracks at h in absurd (cc impossible)
  | inr other ↦ (other, first_tracking-All ps (rw other at h))
]

first_tracking-tracks :
    (policies : List Policy) (p : Policy) → first_tracking policies ≡ some p → is_tracking p ≡ true
first_tracking-tracks [] p h = cc h
first_tracking-tracks (q ∷ ps) p h = elim (Bool-cases (is_tracking q)) [
  | inl tracks ↦ let same : some q ≡ some p = rw tracks at h in ground arith
  | inr other ↦ first_tracking-tracks ps p (rw other at h)
]

-- The policy that is shown tracks a target, or no policy does.
pub find_policy-tracks :
    (policies : List Policy) (p : Policy)
    → find_policy policies ≡ some p
    → (is_tracking p ≡ true) ⊎ All (λ q. is_tracking q ≡ false) policies
unfolding find_policy
find_policy-tracks policies p h = elim (Option-cases (first_tracking policies)) [
  | inl none_tracks ↦ inr (first_tracking-All policies none_tracks)
  | inr (q, found) ↦
      let same : some q ≡ some p = rw found at h in
      inl (first_tracking-tracks policies p (found ∙ same))
]

-- With a cluster and an answer, each service is shown by the last description that has its name.
pub describe_ecs-last :
    (arn worker api : String) (found : Option (List EcsService))
    → (arn === "") ≡ false
    → describe_ecs (some arn) worker api (ok found)
      ≡ services
          (view_of (last_entry worker (by_name found)))
          (view_of (last_entry api (by_name found)))
unfolding describe_ecs
describe_ecs-last arn worker api found filled =
    let last = λ (name : String).
      ap view_of (
        lookup-set_all name (by_name found) []
        ∙ otherwise-none (last_entry name (by_name found))) in
    rw filled (rw (last worker, last api) refl)
