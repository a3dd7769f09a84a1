-- ===== src/Api/Read.antt =====
-- services/api/src/index.ts: which jobs and events the handlers of GET show. A handler goes on with
-- the fields of the job, which serialize_job writes into the reply.
pub mod Isolation
use mathlib.Core.List.{reverse}
use cloud_code_execution_eng.Prelude.{
  ℕ, ◌*◌, ◌≤◌, ◌≡◌, refl, String, Bool, true, false, ◌&&◌, not, Option, none, some, List, [], ◌∷◌,
  min, length, take, keep, All, ◌===◌, if◌then◌else◌, arith, Bool-cases, inl, inr, length-take,
  All-take,
}
use cloud_code_execution_eng.Effect.{pure, remote, ◌>>=◌}
use cloud_code_execution_eng.Common.Keys.{redis_job_key, tenant_job_history_key}
use cloud_code_execution_eng.Redis.Streams.{MetaValue, text, AuditEvent}
use cloud_code_execution_eng.Services.{Services, Store}
use cloud_code_execution_eng.Worker.Records.{W}
use cloud_code_execution_eng.Api.Jobs.{Fields, is_text, is_own}
use cloud_code_execution_eng.Api.Http.{Response, Request}
use cloud_code_execution_eng.Api.Auth.{Gate, passes, replies}

module _ (sv : Services) (request : Request) (tenant_id : String) where
  abbrev pub fields : String → Store sv → Fields
  fields job_id s f = sv.hashes.hget (redis_job_key job_id) f s.hashes

  abbrev failure : ℕ → List (String × MetaValue) → Gate Fields
  failure code more = replies (record { code = code; headers = []; body = more })

  abbrev trace : String × MetaValue
  trace = ("traceId", text request.trace_id)

  abbrev pub checked : Fields → Gate Fields
  checked job =
      if is_own tenant_id job
      then passes job []
      else failure 404 (("error", text "not_found") ∷ trace ∷ [])

  -- getExecutionHandler and the handler of the logs, up to the reply with the job.
  unfoldable pub get_execution : Option String → W sv (Gate Fields)
  get_execution none = pure (
      failure 400
        (("error", text "validation_error") ∷ trace ∷ ("reason", text "missing_job_id") ∷ []))
  get_execution (some job_id) = remote (λ s. (fields job_id s, s)) >>= λ job. pure (checked job)

  -- The ids that listExecutionsHandler shows, the newest first.
  unfoldable pub list_executions : ℕ → W sv (List String)
  list_executions limit = do
    job_ids ←
        remote (λ s.
          (take limit (reverse (sv.sets.members (tenant_job_history_key tenant_id) s.sets)), s))
    remote (λ s. (keep (λ job_id. is_own tenant_id (fields job_id s)) job_ids, s))

  -- The events that GET /v1/audit shows, the newest first.
  unfoldable pub list_audit : String → ℕ → W sv (List AuditEvent)
  list_audit stream_key limit = remote λ s. (
    take limit (
        keep (λ e. is_text tenant_id e.tenant_id)
          (take (min (limit * 10) 1000) (reverse (sv.streams.entries stream_key s.streams)))),
    s,
  )
