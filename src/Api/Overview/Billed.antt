-- ===== src/Api/Overview/Billed.antt =====
-- What /v1/quotas and /v1/costs of services/api/src/index.ts show of what the worker charged and the
-- API reserved.
use Prim.Native.String.{slice}
use cloud_code_execution_eng.Prelude.{
  get_elem?, ℕ, zero, suc, ◌+◌, ◌≤◌, ◌<◌, ◌≡◌, refl, ap, ◌∙◌, String, some, List, [], ◌∷◌, map,
  length, if◌then◌else◌, eq_refl, arith,
}
use cloud_code_execution_eng.Effect.{ok, calm}
use cloud_code_execution_eng.Common.Keys.{tenant_daily_cost_key}
use cloud_code_execution_eng.Common.Keys.Distinct.{IsDateKey}
use cloud_code_execution_eng.Quota.{allowed, reserve_quota}
use cloud_code_execution_eng.Quota.Ledger.{admit, reserve_quota-refines}
use cloud_code_execution_eng.Services.{Services, Store}
use cloud_code_execution_eng.Worker.Records.{increment_daily_cost}
use cloud_code_execution_eng.Api.Http.{Request, ApiConfig}
use cloud_code_execution_eng.Api.Auth.{AuthenticatedTenant, passes}
use cloud_code_execution_eng.Api.Overview.{QuotaView, CostView, get_quotas, get_costs, date_keys}

module _ (sv : Services) (date_key : ℕ → String) where
  length-date_keys : (days ago : ℕ) → length (date_keys sv date_key days ago) ≡ days
  length-date_keys zero ago = refl
  length-date_keys (suc days) ago = omega (arith, length-date_keys days (ago + 1))

  length-shown :
      (f : String → String × sv.floats.F) (days : List String) → length (map f days) ≡ length days
  length-shown f [] = refl
  length-shown f (d ∷ days) = omega (arith, length-shown f days)

  get_elem?-shown :
      (f : String → String × sv.floats.F) (days ago from day : ℕ)
      → ago < days
      → day ≡ from + ago
      → get_elem? (map f (date_keys sv date_key days from)) ago ≡ some (f (date_key day))
  get_elem?-shown f zero ago from day h e = absurd (omega arith)
  get_elem?-shown f (suc days) zero from day h e =
      let same : day ≡ from = omega arith in rw same refl
  get_elem?-shown f (suc days) (suc ago) from day h e =
      get_elem?-shown f days ago (from + 1) day (omega arith) (omega arith)

  -- When every call is answered, the costs of a tenant are shown for as many days as were asked
  -- for, today first; after the worker charged a cost, with a positive time to live, on the day
  -- that many days ago, which is less than the days asked for, the entry at that position has this
  -- day and the sum of what was charged before and this cost.
  pub get_costs-charged :
      (request : Request) (tenant_id timestamp : String) (amount : sv.floats.F) (ttl days ago : ℕ)
      (s : Store sv)
      → 0 < ttl
      → ago < days
      → date_key ago ≡ slice timestamp 0 10
      → (view : CostView sv date_key) × ((get_costs sv date_key request tenant_id
            (some (some days))
            (calm (increment_daily_cost sv tenant_id timestamp amount ttl (calm s)).1.store)).0
          ≡ ok (passes view []))
        × (view.window_days ≡ days)
        × (length view.daily ≡ days)
        × (get_elem? view.daily ago
            ≡ some (
              date_key ago,
              sv.floats.round8 (
                  sv.floats.add
                    (sv.totals.total (tenant_daily_cost_key tenant_id (date_key ago)) s.totals)
                    amount),
            ))
  unfolding get_costs increment_daily_cost
  get_costs-charged request tenant_id timestamp amount ttl days ago s lives shown same_day =
      let k = tenant_daily_cost_key tenant_id (slice timestamp 0 10) in
      let t = sv.totals in
      let charged =
        t.total-expire k k ttl (t.incrbyfloat k amount s.totals) lives
        ∙ t.total-incrbyfloat k k amount s.totals
        ∙ ap (λ b. if b then sv.floats.add (t.total k s.totals) amount else t.total k s.totals)
            (eq_refl k) in
      (
        _,
        refl,
        refl,
        length-shown _ (date_keys sv date_key days 0) ∙ length-date_keys days 0,
        get_elem?-shown _ days ago 0 ago shown (omega arith)
            ∙ rw same_day (ap (λ x. some (slice timestamp 0 10, sv.floats.round8 x)) charged),
      )

  -- For a date of ten characters and a positive time to live, once a reservation has been allowed
  -- and every call is answered, /v1/quotas shows the counts that the reservation gave, and they are
  -- within the limits that it shows.
  pub get_quotas-reserved :
      (config : ApiConfig) (tenant : AuthenticatedTenant) (ttl active daily : ℕ) (s : Store sv)
      → IsDateKey (date_key 0)
      → 0 < ttl
      → (reserve_quota sv.counters tenant.principal ttl (date_key 0) s.counters).0
        ≡ allowed active daily (date_key 0)
      → let after = record s {
        counters = (reserve_quota sv.counters tenant.principal ttl (date_key 0) s.counters).1;
      } in
        (view : QuotaView sv date_key) × ((get_quotas sv date_key config tenant (calm after)).0
          ≡ ok view)
        × (view.active_jobs ≡ active)
        × (view.daily_jobs ≡ daily)
        × (view.active_jobs ≤ view.max_concurrent_jobs)
        × (view.daily_jobs ≤ view.max_daily_jobs)
  unfolding get_quotas admit
  get_quotas-reserved config tenant ttl active daily s dated lives given =
      let (replied, counted) =
        reserve_quota-refines sv.counters tenant.principal ttl (date_key 0) s.counters dated
          lives in
      (_, refl, ground arith, ground arith, ground arith, ground arith)
