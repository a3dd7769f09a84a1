-- ===== src/Worker/Attempts.antt =====
-- The slots that the attempts of services/worker/src/index.ts release, whatever the network does.
pub mod Twice
use cloud_code_execution_eng.Prelude.{
  ℕ, ◌+◌, ◌<◌, ◌≡◌, refl, ap, ◌∙◌, String, Bool, true, false, Option, none, some, List, [], ◌∷◌,
  ◌⊎◌, inl, inr, Bool-cases, ltb, if◌then◌else◌, eq_refl,
}
use Prim.Native.String.{slice}
use cloud_code_execution_eng.Effect.{
  Delivery, delivered, dropped, Result, ok, err, World, Exec, pure, remote, command, ◌>>=◌, ◌>>◌,
  calm,
}
use cloud_code_execution_eng.Effect.Frame.{
  Keeps, Keeps-pure, Keeps-raise, Keeps-command, Keeps-then, Keeps-bind,
}
use cloud_code_execution_eng.Effect.Once.{
  Once, Keeps-Once, command-Once, Keeps-bind_Once, Once-bind_Keeps,
}
use cloud_code_execution_eng.Common.Keys.{tenant_daily_cost_key}
use cloud_code_execution_eng.Common.Jobs.{QueueJobPayload, ExecutionResult}
use cloud_code_execution_eng.Quota.{decrement_active_quota}
use cloud_code_execution_eng.Services.{Services, Store}
use cloud_code_execution_eng.Worker.Ecs.{RunTask, RunTaskResponse, dispatch_ecs_runner}
use cloud_code_execution_eng.Worker.Local.{DockerRun, execute_local_runner}
use cloud_code_execution_eng.Worker.Records.{
  W, append_audit_event, write_audit, mark_running, mark_retrying, increment_daily_cost,
  release_slot,
}
use cloud_code_execution_eng.Worker.Endings.{
  completion_cost, mark_completed, mark_dispatched, mark_failed, mark_dead_lettered,
}
use cloud_code_execution_eng.Worker.Process.{
  ExecutionBackend, local, ecs, WorkerConfig, Processed, completed, outside, run_backend,
  process_job, on_failed,
}

module _ (sv : Services) where
  abbrev counters_of : Store sv → sv.counters.Db
  counters_of s = s.counters

  abbrev Same : {A : Type 0} → W sv A → Type 0
  Same m = Keeps counters_of m

  own :
      (f : Store sv → Store sv)
      → ((s : Store sv) → counters_of (f s) ≡ counters_of s)
      → Same (command f)
  own = Keeps-command counters_of

  increment-Same :
      (tenant_id now : String) (x : sv.floats.F) (ttl : ℕ)
      → Same (increment_daily_cost sv tenant_id now x ttl)
  unfolding increment_daily_cost
  increment-Same tenant_id now x ttl =
      Keeps-then counters_of (own _ (λ s. refl)) (own _ (λ s. refl))

  module _ (now job_id tenant_id key : String) (trace_id : Option String) where
    mark_running-Same : (n : ℕ) → Same (mark_running sv now job_id tenant_id key trace_id n)
    unfolding mark_running
    mark_running-Same n = Keeps-then counters_of (own _ (λ s. refl)) (own _ (λ s. refl))

    mark_retrying-Same :
        (message : String) (n : ℕ)
        → Same (mark_retrying sv now job_id tenant_id key trace_id message n)
    unfolding mark_retrying
    mark_retrying-Same message n = Keeps-then counters_of (own _ (λ s. refl)) (own _ (λ s. refl))

    mark_dead_lettered-Same :
        (dlq_job_id message : String)
        → Same (mark_dead_lettered sv now job_id tenant_id key trace_id dlq_job_id message)
    unfolding mark_dead_lettered
    mark_dead_lettered-Same dlq_job_id message =
        Keeps-then counters_of (own _ (λ s. refl)) (own _ (λ s. refl))

  module _ (tenant_id : String) where
    abbrev released : sv.counters.Db → sv.counters.Db
    released = decrement_active_quota sv.counters tenant_id

    abbrev AtMostOne : {A : Type 0} → W sv A → Type 0
    AtMostOne m = Once counters_of released m

    before : {A B : Type 0} (m : W sv A) (n : W sv B) → Same m → AtMostOne n → AtMostOne (m >> n)
    before m n h k = Keeps-bind_Once counters_of released m (λ _. n) h (λ _. k)

    afterwards :
        {A B : Type 0} (m : W sv A) (n : W sv B) → AtMostOne m → Same n → AtMostOne (m >> n)
    afterwards m n h k = Once-bind_Keeps counters_of released m (λ _. n) h (λ _. k)

    mark_completed-AtMostOne :
        (now job_id key : String) (trace_id : Option String) (result : ExecutionResult)
        (cpu memory ttl : ℕ)
        → AtMostOne
            (mark_completed sv now job_id tenant_id key trace_id result cpu memory none ttl true)
    unfolding mark_completed
    mark_completed-AtMostOne now job_id key trace_id result cpu memory ttl =
        before _ _ (own _ (λ s. refl)) (
          before _ _ (own _ (λ s. refl)) (
            before _ _ (increment-Same tenant_id now _ ttl) (
              afterwards _ _
                (command-Once counters_of released (release_slot sv tenant_id) (λ s. refl))
                (own _ (λ s. refl)))))

    mark_failed-AtMostOne :
        (now job_id key message : String) (trace_id : Option String) (ttl : ℕ)
        → AtMostOne (mark_failed sv now job_id tenant_id key trace_id message ttl true)
    unfolding mark_failed
    mark_failed-AtMostOne now job_id key message trace_id ttl = before _ _ (own _ (λ s. refl)) (
        before _ _ (own _ (λ s. refl)) (
          afterwards _ _ (command-Once counters_of released (release_slot sv tenant_id) (λ s. refl))
            (own _ (λ s. refl))))

  module _ (encode : QueueJobPayload → String) (trim : String → String)
      (docker : List String → Result DockerRun) (send : RunTask → Result RunTaskResponse)
      (config : WorkerConfig) (payload : QueueJobPayload) where
    run_backend-AtMostOne :
        (backend : ExecutionBackend) (now : String)
        → AtMostOne payload.tenant_id
            (run_backend sv encode trim docker send config backend payload now)
    unfolding run_backend mark_dispatched
    run_backend-AtMostOne local now =
        Keeps-bind_Once counters_of _ _ _ (record { at = λ w. refl })
          λ result.
            afterwards payload.tenant_id _ _
              (mark_completed-AtMostOne payload.tenant_id now _ _ _ result _ _ _)
              (Keeps-pure counters_of _)
    run_backend-AtMostOne ecs now = Keeps-Once counters_of _ (
        Keeps-bind counters_of _ _ (record { at = λ w. refl })
          λ dispatch.
            Keeps-then counters_of
              (Keeps-then counters_of (own _ (λ s. refl))
                (Keeps-then counters_of (own _ (λ s. refl)) (own _ (λ s. refl))))
              (Keeps-pure counters_of _))

    attempt-AtMostOne :
        (attempts_made : ℕ) (began now : String)
        → AtMostOne payload.tenant_id
            (process_job sv encode trim docker send config payload attempts_made began now)
    unfolding process_job
    attempt-AtMostOne attempts_made began now =
        before payload.tenant_id _ _ (mark_running-Same began _ _ _ _ _)
          (run_backend-AtMostOne config.execution_backend now)

    failed-AtMostOne :
        (attempts_made max_attempts : ℕ) (message now millis : String)
        → AtMostOne payload.tenant_id (
            on_failed sv encode trim docker send config payload attempts_made max_attempts message
              now millis)
    unfolding on_failed
    failed-AtMostOne attempts_made max_attempts message now millis =
        elim (Bool-cases (ltb attempts_made max_attempts)) [
          | inl again ↦
              rw again (Keeps-Once counters_of _ (mark_retrying-Same now _ _ _ _ message _))
          | inr last ↦ rw last (
              afterwards payload.tenant_id _ _
                (mark_failed-AtMostOne payload.tenant_id now _ _ message _ _)
                (Keeps-then counters_of (own _ (λ s. refl))
                  (mark_dead_lettered-Same now _ _ _ _ _ message)))
        ]

    abbrev pub IsAtMostOne : sv.counters.Db → sv.counters.Db → Type 0
    IsAtMostOne db db' =
        (db' ≡ db) ⊎ (db' ≡ decrement_active_quota sv.counters payload.tenant_id db)

    -- Whatever the network loses, one attempt at a job leaves the counters as they are, or
    -- releases one slot of the job's tenant; so does the failed handler.
    pub process_job-AtMostOne :
        (attempts_made max_attempts : ℕ) (began now message millis : String) (w : World (Store sv))
        → IsAtMostOne w.store.counters
            (process_job sv encode trim docker send config payload attempts_made began now
              w).1.store.counters
          × IsAtMostOne w.store.counters
              (on_failed sv encode trim docker send config payload attempts_made max_attempts
                message now millis w).1.store.counters
    process_job-AtMostOne attempts_made max_attempts began now message millis w = (
      (attempt-AtMostOne attempts_made began now).at w,
      (failed-AtMostOne attempts_made max_attempts message now millis).at w,
    )
