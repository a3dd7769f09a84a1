-- ===== src/Worker/Attempts/Twice.antt =====
-- A job that services/worker/src/index.ts completes twice.
use Prim.Native.String.{slice}
use cloud_code_execution_eng.Prelude.{
  ℕ, ◌<◌, ◌≡◌, refl, ap, ◌∙◌, String, true, none, List, [], ◌∷◌, ltb, lt→ltb, if◌then◌else◌,
  eq_refl,
}
use cloud_code_execution_eng.Effect.{Delivery, delivered, dropped, Result, ok, err, World}
use cloud_code_execution_eng.Common.Keys.{tenant_daily_cost_key}
use cloud_code_execution_eng.Common.Jobs.{QueueJobPayload, ExecutionResult}
use cloud_code_execution_eng.Quota.{decrement_active_quota}
use cloud_code_execution_eng.Services.{Services, Store}
use cloud_code_execution_eng.Worker.Ecs.{RunTask, RunTaskResponse}
use cloud_code_execution_eng.Worker.Local.{DockerRun, execute_local_runner}
use cloud_code_execution_eng.Worker.Records.{mark_running, mark_retrying, increment_daily_cost}
use cloud_code_execution_eng.Worker.Endings.{completion_cost, mark_completed}
use cloud_code_execution_eng.Worker.Process.{
  local, WorkerConfig, Processed, completed, run_backend, process_job, on_failed,
}

-- The first attempt's calls up to the release are answered, and the next one is lost.
abbrev pub event_lost : String → List Delivery
event_lost message =
    delivered
    ∷ delivered
    ∷ delivered
    ∷ delivered
    ∷ delivered
    ∷ delivered
    ∷ delivered
    ∷ dropped message
    ∷ []

module _ (sv : Services) (encode : QueueJobPayload → String) (trim : String → String)
    (docker : List String → Result DockerRun) (send : RunTask → Result RunTaskResponse)
    (config : WorkerConfig) (payload : QueueJobPayload) (began now message millis : String)
    (max_attempts : ℕ) (s : Store sv) where
  abbrev pub first : Result Processed × World (Store sv)
  first =
      process_job sv encode trim docker send config payload 0 began now
        (record { net = event_lost message; store = s })

  abbrev pub again : Result Processed × World (Store sv)
  again =
      process_job sv encode trim docker send config payload 1 began now
        (on_failed sv encode trim docker send config payload 1 max_attempts message now millis
          first.1).1

  abbrev key : String
  key = tenant_daily_cost_key payload.tenant_id (slice now 0 10)

  abbrev pub charged_on_day : Store sv → sv.floats.F
  charged_on_day t = sv.totals.total key t.totals

  abbrev pub cost : ExecutionResult → sv.floats.F
  cost result =
      completion_cost sv now payload.job_id payload.tenant_id config.audit_stream_key
        payload.trace_id result payload.request.cpu_millicores payload.request.memory_mb none

  charged_once :
      (x : sv.floats.F) (db : sv.totals.Db)
      → 0 < config.job_ttl_seconds
      → sv.totals.total key
          (sv.totals.expire key config.job_ttl_seconds (sv.totals.incrbyfloat key x db))
        ≡ sv.floats.add (sv.totals.total key db) x
  charged_once x db lives =
      sv.totals.total-expire key key config.job_ttl_seconds (sv.totals.incrbyfloat key x db) lives
      ∙ sv.totals.total-incrbyfloat key key x db
      ∙ ap (λ b. if b then sv.floats.add (sv.totals.total key db) x else sv.totals.total key db)
          (eq_refl key)

  -- With the local backend, a positive time to live and an attempt left, if the runner gives the
  -- same result twice and the event that the first attempt appends after it released the slot is
  -- lost while all other calls are answered, then the attempt throws, and the next one completes
  -- the job, releases a second slot and charges the job a second time.
  pub process_job-releases_twice :
      (result : ExecutionResult)
      → config.execution_backend ≡ local
      → 0 < config.job_ttl_seconds
      → 1 < max_attempts
      → execute_local_runner encode trim sv.parse_result docker payload config.runner_image
          config.max_stdio_bytes
        ≡ ok result
      → (first.0 ≡ err message)
        × (again.0 ≡ ok (completed result))
        × (again.1.store.counters
            ≡ decrement_active_quota sv.counters payload.tenant_id
                (decrement_active_quota sv.counters payload.tenant_id s.counters))
        × (charged_on_day again.1.store
            ≡ sv.floats.add (sv.floats.add (charged_on_day s) (cost result)) (cost result))
  unfolding process_job run_backend mark_running mark_completed increment_daily_cost on_failed
      mark_retrying
  process_job-releases_twice result b lives more e =
      let left : ltb 1 max_attempts ≡ true = lt→ltb 1 max_attempts more in
      rw (b, e, left)
        (
          refl,
          refl,
          refl,
          charged_once (cost result) _ lives
              ∙ ap (λ x. sv.floats.add x (cost result)) (charged_once (cost result) s.totals lives),
        )
