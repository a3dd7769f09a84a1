-- ===== src/Api/Burst/Counts.antt =====
-- What the burst of services/api/src/index.ts does to the counts of the tenant.
use cloud_code_execution_eng.Prelude.{
  ltb, min, ◌-◌, ℕ, suc, ◌+◌, ◌<◌, ◌≡◌, refl, ap, ◌∙◌, String, Bool, true, [], ◌∷◌, ◌++◌, arith,
  eq_iff,
}
use cloud_code_execution_eng.Effect.{Result, ok, err, World, calm, delivered, dropped}
use cloud_code_execution_eng.Common.Keys.{tenant_active_jobs_key, tenant_daily_jobs_key}
use cloud_code_execution_eng.Common.Keys.Distinct.{IsDateKey, active-ne-daily_jobs}
use cloud_code_execution_eng.Common.Schema.{payload_fits}
use cloud_code_execution_eng.Redis.Counters.{Counters, value}
use cloud_code_execution_eng.Services.{Services, Store}
use cloud_code_execution_eng.Tenants.{TenantPrincipal}
use cloud_code_execution_eng.Api.Http.{Response, Request, ApiConfig}
use cloud_code_execution_eng.Api.Burst.{
  batch_size, burst_payload, add_batches, submit_burst, count_jobs, expire_count,
}
use cloud_code_execution_eng.Api.Burst.Batches.{numbered, add_batches-numbered, add_batch-lost}

module _ (c : Counters) (k j : String) (n ttl : ℕ) (db : c.Db) (lives : 0 < ttl) where
  -- Two counters that are raised by n, the second of which expires.
  abbrev both_raised : c.Db
  both_raised = c.expire j ttl (c.incrby j n (c.incrby k n db))

  value-first : (k ≡ j → ⊥) → value c k both_raised ≡ value c k db + n
  value-first apart = ground (
    arith,
    c.get-expire j k ttl (c.incrby j n (c.incrby k n db)) lives,
    c.get-incrby j k n (c.incrby k n db),
    c.get-incrby k k n db,
    eq_iff j k,
    eq_iff k k,
    eq_iff k j,
  )

  value-second : (k ≡ j → ⊥) → value c j both_raised ≡ value c j db + n
  value-second apart = ground (
    arith,
    c.get-expire j j ttl (c.incrby j n (c.incrby k n db)) lives,
    c.get-incrby j j n (c.incrby k n db),
    c.get-incrby k j n db,
    eq_iff j j,
    eq_iff k j,
  )

module _ (sv : Services) (config : ApiConfig) (is_uuid : String → Bool) (issues : String)
    (request : Request) (uuid : ℕ → String) (fingerprint : String → String)
    (burst_id now date_key key : String) (tenant : TenantPrincipal) (count : ℕ) (s : Store sv) where
  abbrev pub active : Store sv → ℕ
  active t = value sv.counters (tenant_active_jobs_key tenant.tenant_id) t.counters

  abbrev pub daily : Store sv → ℕ
  daily t = value sv.counters (tenant_daily_jobs_key tenant.tenant_id date_key) t.counters

  abbrev pub burst : World (Store sv) → Result Response × World (Store sv)
  burst =
      submit_burst sv config is_uuid issues request uuid fingerprint burst_id now date_key key
        tenant count

  abbrev counted : Store sv
  counted =
      expire_count sv config is_uuid issues request uuid fingerprint burst_id now date_key key
        tenant (tenant_daily_jobs_key tenant.tenant_id date_key)
        (count_jobs sv config is_uuid issues request uuid fingerprint burst_id now date_key key
          tenant (tenant_daily_jobs_key tenant.tenant_id date_key) count
          (count_jobs sv config is_uuid issues request uuid fingerprint burst_id now date_key key
            tenant (tenant_active_jobs_key tenant.tenant_id) count s))

  abbrev pub IsPayload : ℕ → Type 0
  IsPayload n =
      payload_fits is_uuid (
        burst_payload sv config is_uuid issues request uuid fingerprint burst_id now date_key key
          tenant n)
      ≡ true

  apart :
      tenant_active_jobs_key tenant.tenant_id ≡ tenant_daily_jobs_key tenant.tenant_id date_key
      → IsDateKey date_key
      → ⊥
  apart same dated = active-ne-daily_jobs tenant.tenant_id tenant.tenant_id date_key dated same

  -- The loop over the batches after the first task of the first batch was lost.
  add_batches-lost :
      (message : String) (t : Store sv)
      → ((n : ℕ) → IsPayload n)
      → 0 < count
      → (u : Store sv) × (add_batches sv config is_uuid issues request uuid fingerprint burst_id now
            date_key key tenant count count 0
            (record { net = dropped message ∷ []; store = t })
          ≡ (err message, calm u))
        × (u.counters ≡ t.counters)
        × (sv.queue.waiting u.queue
            ≡ sv.queue.waiting t.queue
              ++ numbered sv config is_uuid issues request uuid fingerprint burst_id now date_key
                  key tenant
                  (min batch_size count)
                  0)
  unfolding add_batches
  add_batches-lost message t fits some_jobs =
      let (u, lost, kept, queued) =
        add_batch-lost sv config is_uuid issues request uuid fingerprint burst_id now date_key key
          tenant fits message (min 49 (count - 1)) 0 t in
      let more : ltb 0 count ≡ true = ground arith in
      let size : min batch_size (count - 0) ≡ suc (min 49 (count - 1)) = ground arith in
      let all : min batch_size count ≡ suc (min 49 (count - 1)) = ground arith in
      (u, ap batches_on rounds ∙ rw (more, size, lost) refl, kept, rw all queued)
    where
      batches_on : ℕ → Result (Unit {0}) × World (Store sv)
      batches_on fuel =
          add_batches sv config is_uuid issues request uuid fingerprint burst_id now date_key key
            tenant fuel count 0 (record { net = dropped message ∷ []; store = t })

      rounds : count ≡ suc (count - 1)
      rounds = omega arith

  -- For a date of ten characters, a positive time to live and payloads that the schema accepts, if
  -- every call is answered, a burst replies 200, puts the jobs numbered from 1 to the count at the
  -- end of the queue, and raises the active and the daily count by it, whatever the limits are.
  pub submit_burst-counts :
      IsDateKey date_key
      → 0 < config.daily_quota_ttl_seconds
      → ((n : ℕ) → IsPayload n)
      → (response : Response) × ((burst (calm s)).0 ≡ ok response)
        × (response.code ≡ 200)
        × (sv.queue.waiting (burst (calm s)).1.store.queue
            ≡ sv.queue.waiting s.queue
              ++ numbered sv config is_uuid issues request uuid fingerprint burst_id now date_key
                  key tenant count 0)
        × (active (burst (calm s)).1.store ≡ active s + count)
        × (daily (burst (calm s)).1.store ≡ daily s + count)
  unfolding submit_burst
  submit_burst-counts dated lives fits =
      let a = tenant_active_jobs_key tenant.tenant_id in
      let d = tenant_daily_jobs_key tenant.tenant_id date_key in
      let (t, e, kept, queued) =
        add_batches-numbered sv config is_uuid issues request uuid fingerprint burst_id now date_key
          key tenant fits count counted in
      let raised = λ (k : String). ap (λ db. value sv.counters k db) kept in
      let ttl = config.daily_quota_ttl_seconds in
      rw e (
        _,
        refl,
        refl,
        queued,
        raised a
            ∙ value-first sv.counters a d count ttl s.counters lives (λ same. apart same dated),
        raised d
            ∙ value-second sv.counters a d count ttl s.counters lives (λ same. apart same dated),
      )

  -- For a date of ten characters, a positive time to live and payloads that the schema accepts, if
  -- the write of the first job is lost while all other calls are answered, a burst of at least one
  -- job throws, the queue gets the jobs of the first batch and no more, and the active and the
  -- daily count keep the whole burst.
  pub submit_burst-leaks :
      (message : String)
      → IsDateKey date_key
      → 0 < config.daily_quota_ttl_seconds
      → 0 < count
      → ((n : ℕ) → IsPayload n)
      → let r =
          burst (record {
            net = delivered ∷ delivered ∷ delivered ∷ dropped message ∷ [];
            store = s;
          }) in
        (r.0 ≡ err message)
        × (sv.queue.waiting r.1.store.queue
            ≡ sv.queue.waiting s.queue
              ++ numbered sv config is_uuid issues request uuid fingerprint burst_id now date_key
                  key tenant
                  (min batch_size count)
                  0)
        × (active r.1.store ≡ active s + count)
        × (daily r.1.store ≡ daily s + count)
  unfolding submit_burst
  submit_burst-leaks message dated lives some_jobs fits =
      let a = tenant_active_jobs_key tenant.tenant_id in
      let d = tenant_daily_jobs_key tenant.tenant_id date_key in
      let ttl = config.daily_quota_ttl_seconds in
      let (u, lost, kept, queued) = add_batches-lost message counted fits some_jobs in
      let raised = λ (k : String). ap (λ db. value sv.counters k db) kept in
      rw lost (
        refl,
        queued,
        raised a
            ∙ value-first sv.counters a d count ttl s.counters lives (λ same. apart same dated),
        raised d
            ∙ value-second sv.counters a d count ttl s.counters lives (λ same. apart same dated),
      )
