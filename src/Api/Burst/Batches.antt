-- ===== src/Api/Burst/Batches.antt =====
-- The batches of the burst in services/api/src/index.ts add each job once, in order.
use mathlib.Core.List.{append_assoc, append-nil}
use cloud_code_execution_eng.Prelude.{
  ℕ, zero, suc, ◌+◌, ◌-◌, ◌≤◌, ◌≡◌, refl, sym, ap, ◌∙◌, String, Bool, true, none, some, List, [],
  ◌∷◌, ◌++◌, min, ltb, Bool-cases, inl, inr, arith,
}
use cloud_code_execution_eng.Effect.{ok, err, calm, dropped}
use cloud_code_execution_eng.Common.Keys.{tenant_job_history_key}
use cloud_code_execution_eng.Common.Jobs.{QueueJobPayload}
use cloud_code_execution_eng.Common.Schema.{payload_fits}
use cloud_code_execution_eng.Services.{Services, Store}
use cloud_code_execution_eng.Tenants.{TenantPrincipal}
use cloud_code_execution_eng.Worker.Records.{write_job, expire_job}
use cloud_code_execution_eng.Api.Http.{Request, ApiConfig}
use cloud_code_execution_eng.Api.Submit.{queued_updates, add_job, trim_history}
use cloud_code_execution_eng.Api.Burst.{
  burst_payload, add_burst_job, start_batch, add_batch, add_batches, batch_size,
}

module _ (sv : Services) (config : ApiConfig) (is_uuid : String → Bool) (issues : String)
    (request : Request) (uuid : ℕ → String) (fingerprint : String → String)
    (burst_id now date_key key : String) (tenant : TenantPrincipal) where
  abbrev pub payload : ℕ → QueueJobPayload
  payload =
      burst_payload sv config is_uuid issues request uuid fingerprint burst_id now date_key key
        tenant

  -- The jobs that a loop over all numbers would add.
  abbrev pub numbered : ℕ → ℕ → List (String × QueueJobPayload)
  numbered zero offset = []
  numbered (suc m) offset = (uuid (offset + 1), payload (offset + 1)) ∷ numbered m (offset + 1)

module _ (sv : Services) (config : ApiConfig) (is_uuid : String → Bool) (issues : String)
    (request : Request) (uuid : ℕ → String) (fingerprint : String → String)
    (burst_id now date_key key : String) (tenant : TenantPrincipal)
    (fits : (n : ℕ)
      → payload_fits is_uuid (
          burst_payload sv config is_uuid issues request uuid fingerprint burst_id now date_key key
            tenant n)
        ≡ true) where
  abbrev jobs : ℕ → QueueJobPayload
  jobs = payload sv config is_uuid issues request uuid fingerprint burst_id now date_key key tenant

  abbrev append_history : String → Store sv → Store sv
  append_history id s =
      let k = tenant_job_history_key tenant.tenant_id in
      record s {
        sets =
            sv.sets.expire k config.job_ttl_seconds
              (trim_history sv config k config.job_history_max (sv.sets.zadd k id s.sets));
      }

  abbrev after_job : ℕ → Store sv → Store sv
  after_job n s = add_job sv config is_uuid issues request (uuid n) now (jobs n) (
      append_history (uuid n) (
        expire_job sv (uuid n) config.job_ttl_seconds (
          write_job sv (uuid n)
            (queued_updates sv config is_uuid issues request (uuid n) now (jobs n)) s)))

  abbrev after_jobs : ℕ → ℕ → Store sv → Store sv
  after_jobs zero offset s = s
  after_jobs (suc m) offset s = after_jobs m (offset + 1) (after_job (offset + 1) s)

  add_burst_job-calm :
      (n : ℕ) (s : Store sv)
      → add_burst_job sv config is_uuid issues request uuid fingerprint burst_id now date_key key
          tenant n
          (calm s)
        ≡ (ok none, calm (after_job n s))
  unfolding add_burst_job
  add_burst_job-calm n s = rw (fits n) refl

  start_batch-calm :
      (m offset : ℕ) (s : Store sv)
      → start_batch sv config is_uuid issues request uuid fingerprint burst_id now date_key key
          tenant m offset
          (calm s)
        ≡ (ok none, calm (after_jobs m offset s))
  unfolding start_batch
  start_batch-calm zero offset s = refl
  start_batch-calm (suc m) offset s =
      rw
        (
          add_burst_job-calm (offset + 1) s,
          start_batch-calm m (offset + 1) (after_job (offset + 1) s),
        )
        refl

  add_batch-calm :
      (m offset : ℕ) (s : Store sv)
      → add_batch sv config is_uuid issues request uuid fingerprint burst_id now date_key key tenant
          m offset
          (calm s)
        ≡ (ok tt, calm (after_jobs m offset s))
  unfolding add_batch
  add_batch-calm m offset s = rw (start_batch-calm m offset s) refl

  after_jobs-add :
      (m n offset next all : ℕ) (s : Store sv)
      → next ≡ offset + m
      → all ≡ m + n
      → after_jobs n next (after_jobs m offset s) ≡ after_jobs all offset s
  after_jobs-add zero n offset next all s e f =
      let here : next ≡ offset = omega arith in
      let same : all ≡ n = omega arith in rw (here, same) refl
  after_jobs-add (suc m) n offset next all s e f =
      let more : all ≡ suc (m + n) = omega arith in
      rw more
        (after_jobs-add m n (offset + 1) next (m + n) (after_job (offset + 1) s) (omega arith) refl)

  -- A batch and the batches behind it.
  after_batch :
      (count offset : ℕ) (s : Store sv)
      → after_jobs
          (count - (offset + batch_size))
          (offset + batch_size)
          (after_jobs (min batch_size (count - offset)) offset s)
        ≡ after_jobs (count - offset) offset s
  after_batch count offset s = elim (Bool-cases (ltb (count - offset) batch_size)) [
    | inl last ↦
        let none_left : count - (offset + batch_size) ≡ 0 = ground arith in
        let rest : min batch_size (count - offset) ≡ count - offset = ground arith in
        rw (none_left, rest) refl
    | inr full ↦
        let whole : min batch_size (count - offset) ≡ batch_size = ground arith in
        rw whole (
          after_jobs-add batch_size (count - (offset + batch_size)) offset (offset + batch_size)
            (count - offset) s refl (ground arith))
  ]

  add_batches-calm :
      (fuel count offset : ℕ) (s : Store sv)
      → count - offset ≤ fuel
      → add_batches sv config is_uuid issues request uuid fingerprint burst_id now date_key key
          tenant fuel count offset
          (calm s)
        ≡ (ok tt, calm (after_jobs (count - offset) offset s))
  unfolding add_batches
  add_batches-calm zero count offset s enough =
      let done : count - offset ≡ 0 = omega arith in rw done refl
  add_batches-calm (suc fuel) count offset s enough = elim (Bool-cases (ltb offset count)) [
    | inl more ↦
        rw (more, add_batch-calm (min batch_size (count - offset)) offset s)
          (add_batches-calm fuel count (offset + batch_size)
              (after_jobs (min batch_size (count - offset)) offset s) (ground arith)
            ∙ ap (λ t. (ok tt, calm t)) (after_batch count offset s))
    | inr done ↦ let none_left : count - offset ≡ 0 = ground arith in rw (done, none_left) refl
  ]

  after_jobs-counters :
      (m offset : ℕ) (s : Store sv) → (after_jobs m offset s).counters ≡ s.counters
  after_jobs-counters zero offset s = refl
  after_jobs-counters (suc m) offset s =
      after_jobs-counters m (offset + 1) (after_job (offset + 1) s)

  after_jobs-queue :
      (m offset : ℕ) (s : Store sv)
      → sv.queue.waiting (after_jobs m offset s).queue
        ≡ sv.queue.waiting s.queue
          ++ numbered sv config is_uuid issues request uuid fingerprint burst_id now date_key key
              tenant m offset
  after_jobs-queue zero offset s = sym (append-nil (sv.queue.waiting s.queue))
  after_jobs-queue (suc m) offset s =
      after_jobs-queue m (offset + 1) (after_job (offset + 1) s)
      ∙ ap
          (λ waiting.
            waiting
            ++ numbered sv config is_uuid issues request uuid fingerprint burst_id now date_key key
                tenant m (offset + 1))
          (sv.queue.waiting-add (uuid (offset + 1)) (jobs (offset + 1)) s.queue)
      ∙ append_assoc (sv.queue.waiting s.queue) _ _

  -- The batches add the jobs of one loop over all numbers, each once, to the end of the queue, and
  -- leave the counters alone.
  pub add_batches-numbered :
      (count : ℕ) (s : Store sv)
      → (t : Store sv) × (add_batches sv config is_uuid issues request uuid fingerprint burst_id now
            date_key key tenant count count 0
            (calm s)
          ≡ (ok tt, calm t))
        × (t.counters ≡ s.counters)
        × (sv.queue.waiting t.queue
            ≡ sv.queue.waiting s.queue
              ++ numbered sv config is_uuid issues request uuid fingerprint burst_id now date_key
                  key tenant count 0)
  add_batches-numbered count s =
      let whole : count - 0 ≡ count = omega arith in
      (
        after_jobs count 0 s,
        add_batches-calm count count 0 s (omega arith)
            ∙ ap (λ n. (ok tt, calm (after_jobs n 0 s))) whole,
        after_jobs-counters count 0 s,
        after_jobs-queue count 0 s,
      )

  -- What the tasks of a job leave when the first of them is lost.
  abbrev after_lost : ℕ → Store sv → Store sv
  after_lost n s =
      add_job sv config is_uuid issues request (uuid n) now (jobs n)
        (append_history (uuid n) (expire_job sv (uuid n) config.job_ttl_seconds s))

  add_burst_job-lost :
      (message : String) (n : ℕ) (s : Store sv)
      → add_burst_job sv config is_uuid issues request uuid fingerprint burst_id now date_key key
          tenant n
          (record { net = dropped message ∷ []; store = s })
        ≡ (ok (some message), calm (after_lost n s))
  unfolding add_burst_job
  add_burst_job-lost message n s = rw (fits n) refl

  -- When the first task of a batch is lost, the batch throws, and all its jobs are in the queue.
  pub add_batch-lost :
      (message : String) (m offset : ℕ) (s : Store sv)
      → (t : Store sv) × (add_batch sv config is_uuid issues request uuid fingerprint burst_id now
            date_key key tenant
            (suc m)
            offset
            (record { net = dropped message ∷ []; store = s })
          ≡ (err message, calm t))
        × (t.counters ≡ s.counters)
        × (sv.queue.waiting t.queue
            ≡ sv.queue.waiting s.queue
              ++ numbered sv config is_uuid issues request uuid fingerprint burst_id now date_key
                  key tenant
                  (suc m)
                  offset)
  unfolding add_batch start_batch
  add_batch-lost message m offset s =
      let first = after_lost (offset + 1) s in
      (
        after_jobs m (offset + 1) first,
        rw (add_burst_job-lost message (offset + 1) s, start_batch-calm m (offset + 1) first) refl,
        after_jobs-counters m (offset + 1) first,
        after_jobs-queue m (offset + 1) first
            ∙ ap
                (λ waiting.
                  waiting
                  ++ numbered sv config is_uuid issues request uuid fingerprint burst_id now
                      date_key key tenant m (offset + 1))
                (sv.queue.waiting-add (uuid (offset + 1)) (jobs (offset + 1)) s.queue)
            ∙ append_assoc (sv.queue.waiting s.queue) _ _,
      )
