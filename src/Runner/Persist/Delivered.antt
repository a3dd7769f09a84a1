-- ===== src/Runner/Persist/Delivered.antt =====
-- What services/runner/src/index.ts leaves in the store, and how its process ends.
use cloud_code_execution_eng.Prelude.{
  ℕ, ◌≡◌, refl, String, true, false, Option, none, some, List, [], ◌∷◌, ◌===◌, inl, inr, Bool-cases,
}
use cloud_code_execution_eng.Effect.{
  delivered, dropped, Result, ok, err, World, Exec, calm, try_catch, handled, pure, ◌>>◌,
}
use cloud_code_execution_eng.Common.Keys.{redis_job_key}
use cloud_code_execution_eng.Common.Jobs.{QueueJobPayload, ExecutionResult, result_status_name}
use cloud_code_execution_eng.Services.{Services, Store}
use cloud_code_execution_eng.Quota.{decrement_active_quota}
use cloud_code_execution_eng.Redis.HashLaws.{hget-hset_own}
use cloud_code_execution_eng.Runner.Execute.{ChildRun, execute_user_code}
use cloud_code_execution_eng.Runner.Persist.{
  RunnerEnv, Ended, resolved, persisted_updates, persist_result_to_redis, has_url, run, fallback,
  print_fallback, persist_fallback, recover, main,
}

module _ {S : Type 0} {A : Type 0} where
  -- Code that never throws.
  abbrev pub Answers : Exec S A → World S → Type 0
  Answers m w = (a : A) × ((m w).0 ≡ ok a)

  handled-Answers :
      (r : Result A) (w : World S) (h : String → Exec S A)
      → ((message : String) → Answers (h message) w)
      → (a : A) × ((handled r w h).0 ≡ ok a)
  handled-Answers (ok a) w h k = (a, refl)
  handled-Answers (err message) w h k = k message

  try_catch-Answers :
      (m : Exec S A) (h : String → Exec S A) (w : World S)
      → ((message : String) (v : World S) → Answers (h message) v)
      → Answers (try_catch m h) w
  try_catch-Answers m h w k = handled-Answers (m w).0 (m w).1 h λ message. k message (m w).1

module _ (sv : Services) (spawn : String → List String → Option String → ℕ → Result ChildRun)
    (started_at write_ms : ℕ) (now later : String) where
  printed : RunnerEnv → Result QueueJobPayload → String → Ended
  printed env payload message = record {
    printed = some (fallback sv spawn env payload started_at write_ms message);
    exit_code = 1;
  }

  recover-Answers :
      (env : RunnerEnv) (payload : Result QueueJobPayload) (message : String) (w : World (Store sv))
      → Answers (recover sv spawn env payload started_at write_ms later message) w
  unfolding recover printed persist_result_to_redis persist_fallback
  recover-Answers env payload message w = elim (Bool-cases env.to_redis) [
    | inl e ↦ elim (Bool-cases (has_url sv spawn env payload started_at write_ms env.redis_url)) [
      | inl u ↦
          rw (e, u)
            (try_catch-Answers
              (persist_fallback sv spawn env payload started_at write_ms later message)
              (λ _. print_fallback sv spawn env payload started_at write_ms message) w
              (λ m v. (printed env payload message, refl)))
      | inr u ↦ rw (e, u) (printed env payload message, refl)
    ]
    | inr e ↦ rw e (printed env payload message, refl)
  ]

  -- Whatever the network loses and whether or not the payload decodes, the runner ends with an
  -- exit code: no error goes unhandled.
  pub main-Answers :
      (env : RunnerEnv) (payload : Result QueueJobPayload) (w : World (Store sv))
      → (ended : Ended) × ((main sv spawn env payload started_at write_ms now later w).0 ≡ ok ended)
  unfolding main
  main-Answers env payload w =
      try_catch-Answers (run sv spawn env payload started_at write_ms now)
        (recover sv spawn env payload started_at write_ms later) w
        (λ message v. recover-Answers env payload message v)

  -- The job's hash, and the slots, after a result is persisted.
  pub record IsPersisted (p : QueueJobPayload) (result : ExecutionResult) (before after : Store sv)
      : Type 0 where
    pub status :
        sv.hashes.hget (redis_job_key p.job_id) "status" after.hashes
        ≡ some (result_status_name result.status)
    pub result_kept :
        sv.hashes.hget (redis_job_key p.job_id) "result" after.hashes ≡ some (sv.stringify result)
    pub slot_released :
        after.counters ≡ decrement_active_quota sv.counters p.tenant_id before.counters

  persist-calm :
      (env : RunnerEnv) (p : QueueJobPayload) (result : ExecutionResult) (s : Store sv)
      → IsPersisted p result s (persist_result_to_redis sv env p result now (calm s)).1.store
  unfolding persist_result_to_redis
  persist-calm env p result s =
      let us = persisted_updates sv now p result (resolved sv env.billing p.job_id s) in
      let own = λ (f : String). hget-hset_own sv.hashes (redis_job_key p.job_id) f us s.hashes in
      record { status = own "status"; result_kept = own "result"; slot_released = refl }

  -- The environment of a runner task, which writes to Redis.
  abbrev pub task_env : RunnerEnv → String → RunnerEnv
  task_env env url = record env { to_redis = true; redis_url = some url }

  module _ (env : RunnerEnv) (p : QueueJobPayload) (result : ExecutionResult) (url : String)
      (s : Store sv) (named : (url === "") ≡ false)
      (executed : execute_user_code spawn env.max_stdio_bytes started_at write_ms p.request
        ≡ ok result) where
    abbrev pub ended_in : World (Store sv) → Result Ended × World (Store sv)
    ended_in = main sv spawn (task_env env url) (ok p) started_at write_ms now later

    run-task :
        (w : World (Store sv))
        → run sv spawn (task_env env url) (ok p) started_at write_ms now w
          ≡ (persist_result_to_redis sv (task_env env url) p result now
                >> pure (record { printed = none; exit_code = 0 }))
              w
    unfolding run has_url
    run-task w = rw (named, executed) refl

    recover-task :
        (message : String) (w : World (Store sv))
        → recover sv spawn (task_env env url) (ok p) started_at write_ms later message w
          ≡ try_catch
              (persist_fallback sv spawn
                (task_env env url)
                (ok p)
                started_at
                write_ms
                later
                message)
              (λ _. print_fallback sv spawn (task_env env url) (ok p) started_at write_ms message)
              w
    unfolding recover has_url
    recover-task message w = rw named refl

    -- In a task that writes to Redis, if the execution gives a result and every call is answered,
    -- the process exits with 0, the job keeps the result and its status, and one slot is released.
    pub main-IsPersisted :
        ((ended_in (calm s)).0 ≡ ok (record { printed = none; exit_code = 0 }))
        × IsPersisted p result s (ended_in (calm s)).1.store
    unfolding main persist_result_to_redis
    main-IsPersisted = rw (run-task (calm s)) (refl, persist-calm (task_env env url) p result s)

    -- In a task that writes to Redis, if the execution gives a result and the XADD after the
    -- release is lost while all other calls are answered, the job is recorded as failed and two
    -- slots are released.
    pub main-releases_twice :
        (message : String)
        → let after = ended_in (record {
          net = delivered ∷ delivered ∷ delivered ∷ delivered ∷ delivered ∷ dropped message ∷ [];
          store = s;
        }) in
          (sv.hashes.hget (redis_job_key p.job_id) "status" after.1.store.hashes ≡ some "failed")
          × (after.1.store.counters
              ≡ decrement_active_quota sv.counters p.tenant_id
                  (decrement_active_quota sv.counters p.tenant_id s.counters))
    unfolding main persist_result_to_redis persist_fallback
    main-releases_twice message =
        rw (run-task _, recover-task message _) (hget-hset_own sv.hashes _ "status" _ _, refl)
