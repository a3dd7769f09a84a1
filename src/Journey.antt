-- ===== src/Journey.antt =====
-- One job on its way through the services: submitExecutionHandler of services/api/src/index.ts takes
-- it, the handler of services/worker/src/index.ts runs it, and getExecutionHandler shows it.
use cloud_code_execution_eng.Prelude.{
  eq_refl, ℕ, ◌+◌, ◌<◌, ◌≡◌, ◌≢◌, refl, ap, ◌∙◌, String, Bool, true, some, List, [], ◌∷◌, ◌++◌,
}
use cloud_code_execution_eng.Effect.{Result, ok, World, calm}
use cloud_code_execution_eng.Common.Keys.{tenant_active_jobs_key, tenant_daily_jobs_key}
use cloud_code_execution_eng.Common.Keys.Distinct.{IsDateKey}
use cloud_code_execution_eng.Common.Jobs.{
  JobRequest, QueueJobPayload, ExecutionResult, ResultStatus, result_status_name,
}
use cloud_code_execution_eng.Common.Schema.{payload_fits}
use cloud_code_execution_eng.Redis.Counters.{value}
use cloud_code_execution_eng.Services.{Services, Store}
use cloud_code_execution_eng.Quota.{
  QuotaReservation, allowed, reserve_quota, decrement_active_quota,
}
use cloud_code_execution_eng.Quota.Ledger.{decrement-reserve_quota}
use cloud_code_execution_eng.Api.Http.{Response, Request, ApiConfig}
use cloud_code_execution_eng.Api.Auth.{AuthenticatedTenant, Gate, passes}
use cloud_code_execution_eng.Api.Submit.{payload_of, submit_reserved}
use cloud_code_execution_eng.Api.Submit.Rollback.{submit_reserved-IsAccepted}
use cloud_code_execution_eng.Api.Jobs.{Fields, serialize_job, is_own, is_shown}
use cloud_code_execution_eng.Api.Jobs.Shown.{Tells, process_job-Tells}
use cloud_code_execution_eng.Api.Logs.{
  Logs, Logged, get_logs, logs_of-Logged, get_logs-get_execution,
}
use cloud_code_execution_eng.Api.Read.{get_execution, fields}
use cloud_code_execution_eng.Worker.Ecs.{RunTask, RunTaskResponse}
use cloud_code_execution_eng.Worker.Local.{DockerRun, execute_local_runner}
use cloud_code_execution_eng.Worker.Process.{local, WorkerConfig, Processed, completed}
use cloud_code_execution_eng.Worker.Lifecycle.{processed, process_job-IsCompleted}

named : (status : ResultStatus) → is_shown (some (result_status_name status)) ≡ true
named ResultStatus.succeeded = refl
named ResultStatus.failed = refl

-- A tenant's look at its own job that ended shows it.
get_execution-own :
    (sv : Services) (request : Request) (tenant_id job_id : String) (status : ResultStatus)
    (t : Store sv)
    → fields sv request tenant_id job_id t "status" ≡ some (result_status_name status)
    → fields sv request tenant_id job_id t "tenantId" ≡ some tenant_id
    → (get_execution sv request tenant_id (some job_id) (calm t)).0
      ≡ ok (passes (fields sv request tenant_id job_id t) [])
unfolding get_execution
get_execution-own sv request tenant_id job_id status t ended owned =
    let own : is_own tenant_id (fields sv request tenant_id job_id t) ≡ true =
      rw (ended, owned, named status) (eq_refl tenant_id) in
    rw own refl

module _ (sv : Services) (api : ApiConfig) (is_uuid : String → Bool) (issues : String)
    (request : Request) (job_id created_at date_key : String) (tenant : AuthenticatedTenant)
    (r : JobRequest) (encode : QueueJobPayload → String) (trim : String → String)
    (docker : List String → Result DockerRun) (send : RunTask → Result RunTaskResponse)
    (worker : WorkerConfig) (began now : String) (s : Store sv) where
  abbrev pub payload : QueueJobPayload
  payload = payload_of sv api is_uuid issues request job_id created_at tenant.principal r

  abbrev pub reservation : QuotaReservation × sv.counters.Db
  reservation =
      reserve_quota sv.counters tenant.principal api.daily_quota_ttl_seconds date_key s.counters

  -- The reservation and the submission, the run of the job, and a look at it.
  abbrev pub submitted : Result Response × World (Store sv)
  submitted =
      submit_reserved sv api is_uuid issues request job_id created_at tenant r date_key
        (calm (record s { counters = reservation.1 }))

  abbrev pub worked : Result Processed × Store sv
  worked = processed sv encode trim docker send worker payload 0 began now submitted.1.store

  abbrev pub looked_up : Result (Gate Fields)
  looked_up = (get_execution sv request tenant.principal.tenant_id (some job_id) (calm worked.1)).0

  abbrev pub logs_asked : Result (Gate Logs)
  logs_asked = (get_logs sv request tenant.principal.tenant_id (some job_id) (calm worked.1)).0

  abbrev pub active : Store sv → ℕ
  active t = value sv.counters (tenant_active_jobs_key tenant.principal.tenant_id) t.counters

  abbrev pub daily : Store sv → ℕ
  daily t = value sv.counters (tenant_daily_jobs_key tenant.principal.tenant_id date_key) t.counters

  pub record IsServed (result : ExecutionResult) : Type 0 where
    pub accepted : (response : Response) × (submitted.0 ≡ ok response) × (response.code ≡ 202)
    pub queued :
        sv.queue.waiting submitted.1.store.queue
        ≡ sv.queue.waiting s.queue ++ (job_id, payload) ∷ []
    pub completed_with : worked.0 ≡ ok (completed result)
    pub shown :
        (job : Fields) × (looked_up ≡ ok (passes job [])) × Tells sv result (serialize_job sv job)
    pub logged : (logs : Logs) × (logs_asked ≡ ok (passes logs [])) × Logged sv result logs
    pub slot_free_again : active worked.1 ≡ active s
    pub counted : daily worked.1 ≡ daily s + 1

  module _ (a d : ℕ) (dated : IsDateKey date_key) (daily_lives : 0 < api.daily_quota_ttl_seconds)
      (given : reservation.0 ≡ allowed a d date_key) where
    released :
        (counters : sv.counters.Db)
        → counters ≡ decrement_active_quota sv.counters tenant.principal.tenant_id reservation.1
        → (value sv.counters (tenant_active_jobs_key tenant.principal.tenant_id) counters
            ≡ active s)
          × (value sv.counters (tenant_daily_jobs_key tenant.principal.tenant_id date_key) counters
              ≡ daily s + 1)
    released counters e =
        let (a_kept, d_kept) =
          decrement-reserve_quota sv.counters tenant.principal api.daily_quota_ttl_seconds date_key
            s.counters dated daily_lives a d given in
        (ap (value sv.counters _) e ∙ a_kept, ap (value sv.counters _) e ∙ d_kept)

    -- For a date of ten characters and positive times to live, if a slot was reserved, the payload
    -- is valid, the runner of the local backend gives a result that is written as a text that is
    -- not empty and that parses back, and every call is answered, then the submission replies 202
    -- and adds the job to the queue, the worker completes it with that result, the tenant's look
    -- at the job tells of the result, the logs of the job are its outputs, the tenant's active
    -- jobs are as many as before, and its daily jobs are one more.
    pub journey :
        (result : ExecutionResult)
        → 0 < api.job_ttl_seconds
        → payload_fits is_uuid payload ≡ true
        → worker.execution_backend ≡ local
        → 0 < worker.job_ttl_seconds
        → execute_local_runner encode trim sv.parse_result docker payload worker.runner_image
            worker.max_stdio_bytes
          ≡ ok result
        → sv.stringify result ≢ ""
        → sv.parse_result (sv.stringify result) ≡ some result
        → IsServed result
    journey result lives fits b worker_lives e filled parsed =
        let taken =
          submit_reserved-IsAccepted sv api is_uuid issues request job_id created_at tenant r
            date_key (record s { counters = reservation.1 }) lives fits in
        let done =
          process_job-IsCompleted sv encode trim docker send worker payload 0 began now
            submitted.1.store result b worker_lives e in
        let tells =
          process_job-Tells sv encode trim docker send worker payload 0 began now submitted.1.store
            result b worker_lives e filled parsed in
        let counters = released worked.1.counters (
          done.slot_released
          ∙ ap (decrement_active_quota sv.counters tenant.principal.tenant_id) taken.quota_kept) in
        let seen =
          get_execution-own sv request tenant.principal.tenant_id job_id result.status worked.1
            done.status (done.owner_kept ∙ taken.owner) in
        let job = fields sv request tenant.principal.tenant_id job_id worked.1 in
        let logs_seen =
          get_logs-get_execution sv request tenant.principal.tenant_id (some job_id) (calm worked.1)
            job seen in
        record {
          accepted = (taken.response, taken.answer, taken.code);
          queued = taken.queued;
          completed_with = done.answer;
          shown = (job, seen, tells);
          logged = (_, logs_seen, logs_of-Logged sv result (serialize_job sv job) tells);
          slot_free_again = counters.0;
          counted = counters.1;
        }
