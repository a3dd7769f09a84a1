-- ===== src/Api/Burst.antt =====
-- services/api/src/index.ts: app.post("/v1/admin/simulate/burst"). The ids that `randomUUID` draws
-- for the jobs are given by their numbers. The tasks of a batch are all started, and each goes its way
-- whatever becomes of the others; they are taken in the order in which they are made, and to be over
-- when `Promise.all` throws. The sample of the queue's depth is left out.
pub mod Batches
pub mod Counts
use Prim.Native.String.{◌++◌}
use cloud_code_execution_eng.Prelude.{
  ℕ, zero, suc, ◌+◌, ◌-◌, String, Bool, true, false, Option, none, some, List, [], ◌∷◌, min, ltb,
  show, if◌then◌else◌,
}
use cloud_code_execution_eng.Effect.{Result, ok, err, pure, raise, command, ◌>>=◌, ◌>>◌}
use cloud_code_execution_eng.Common.Keys.{tenant_active_jobs_key, tenant_daily_jobs_key}
use cloud_code_execution_eng.Common.Jobs.{python, QueueJobPayload}
use cloud_code_execution_eng.Services.{Services, Store}
use cloud_code_execution_eng.Redis.Streams.{text, number}
use cloud_code_execution_eng.Tenants.{TenantPrincipal}
use cloud_code_execution_eng.Worker.Records.{W, write_job, expire_job}
use cloud_code_execution_eng.Api.Http.{Response, Request, ApiConfig}
use cloud_code_execution_eng.Api.Auth.{Gate, passes, replies, require_admin, Claims}
use cloud_code_execution_eng.Api.Submit.{
  append_history_item, parse_payload, queued_updates, add_job, audit, reply,
}

abbrev pub batch_size : ℕ
batch_size = 50

-- The error with which a task was rejected, if it was.
abbrev pub Rejection : Type 0
Rejection = Option String

abbrev pub first_of : Rejection → Rejection → Rejection
first_of none later = later
first_of (some message) later = some message

abbrev rejection : Result (Unit {0}) → Rejection
rejection (ok _) = none
rejection (err message) = some message

module _ {sv : Services} where
  -- A promise that is not awaited yet.
  abbrev pub task : W sv (Unit {0}) → W sv Rejection
  task m w = (ok (rejection (m w).0), (m w).1)

  abbrev pub await_all : Rejection → W sv (Unit {0})
  await_all none = pure tt
  await_all (some message) = raise message

module _ (sv : Services) (config : ApiConfig) (is_uuid : String → Bool) (issues : String)
    (request : Request) (uuid : ℕ → String) (fingerprint : String → String)
    (burst_id now date_key : String) where
  module _ (key : String) (tenant : TenantPrincipal) where
    -- The job with this number, from 1 on.
    abbrev pub burst_payload : ℕ → QueueJobPayload
    burst_payload n = record {
      job_id = uuid n;
      tenant_id = tenant.tenant_id;
      api_key_fingerprint = fingerprint ("admin:" ++ key);
      trace_id = some request.trace_id;
      request = record {
        language = python;
        source_code = "print(" ++ (show n ++ ")");
        stdin = "";
        timeout_ms = 3000;
        memory_mb = 128;
        cpu_millicores = 256;
      };
      created_at = now;
    }

    -- The tasks of one job; an error is that of the first task that is rejected.
    unfoldable pub add_burst_job : ℕ → W sv Rejection
    unfolding append_history_item
    add_burst_job n = do
      p ← parse_payload sv config is_uuid issues request (uuid n) now (burst_payload n)
      written ← task (
          command (
            write_job sv (uuid n) (queued_updates sv config is_uuid issues request (uuid n) now p)))
      kept ← task (command (expire_job sv (uuid n) config.job_ttl_seconds))
      listed ← task (append_history_item sv config p.tenant_id (uuid n))
      added ← task (command (add_job sv config is_uuid issues request (uuid n) now p))
      pure (first_of written (first_of kept (first_of listed added)))

    -- The tasks of so many jobs, from the one after `offset` on.
    unfoldable pub start_batch : ℕ → ℕ → W sv Rejection
    start_batch zero offset = pure none
    start_batch (suc batch) offset = do
      one ← add_burst_job (offset + 1)
      more ← start_batch batch (offset + 1)
      pure (first_of one more)

    -- `await Promise.all(tasks)`.
    unfoldable pub add_batch : ℕ → ℕ → W sv (Unit {0})
    add_batch batch offset = start_batch batch offset >>= await_all

    -- The loop over the batches; each takes one unit of fuel.
    unfoldable pub add_batches : ℕ → ℕ → ℕ → W sv (Unit {0})
    add_batches zero count offset = pure tt
    add_batches (suc fuel) count offset =
        let rest = add_batches fuel count (offset + batch_size) in
        if ltb offset count
        then add_batch (min batch_size (count - offset)) offset >> rest
        else pure tt

    abbrev pub count_jobs : String → ℕ → Store sv → Store sv
    count_jobs k count s = record s { counters = sv.counters.incrby k count s.counters }

    abbrev pub expire_count : String → Store sv → Store sv
    expire_count k s = record s {
      counters = sv.counters.expire k config.daily_quota_ttl_seconds s.counters;
    }

    unfoldable pub submit_burst : ℕ → W sv Response
    submit_burst count = do
      command (count_jobs (tenant_active_jobs_key tenant.tenant_id) count)
      command (count_jobs (tenant_daily_jobs_key tenant.tenant_id date_key) count)
      command (expire_count (tenant_daily_jobs_key tenant.tenant_id date_key))
      add_batches count count 0
      audit sv config is_uuid issues request burst_id now "admin_burst_submitted" tenant.tenant_id
          none
          (("burstId", text burst_id)
            ∷ ("count", number count)
            ∷ ("traceId", text request.trace_id)
            ∷ [])
      reply sv config is_uuid issues request burst_id now 200 [] (
          ("status", text "queued")
          ∷ ("traceId", text request.trace_id)
          ∷ ("burstId", text burst_id)
          ∷ ("count", number count)
          ∷ [])

  -- The count is what the schema makes of the body, if it accepts it.
  abbrev pub admitted : Option ℕ → Gate (String × TenantPrincipal) → W sv Response
  admitted count (replies response) = pure response
  admitted none (passes admin _) =
      reply sv config is_uuid issues request burst_id now 400 []
        (("error", text "validation_error") ∷ ("traceId", text request.trace_id) ∷ [])
  admitted (some count) (passes (key, tenant) _) = submit_burst key tenant count

  unfoldable pub simulate_burst : (String → Option Claims) → Option ℕ → W sv Response
  simulate_burst verify count =
      require_admin config verify fingerprint sv request >>= admitted count
