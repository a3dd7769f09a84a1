-- ===== src/Witnesses/Runs.antt =====
-- The runner's theorems at a small Python program.
use cloud_code_execution_eng.Prelude.{
  max, ◌+◌, ◌*◌, subst, ℕ, ◌≤◌, ◌≡◌, refl, String, false, Option, none, some, List, [], ◌∷◌, arith,
}
use cloud_code_execution_eng.Effect.{Result, ok, err, calm, World, delivered, dropped}
use cloud_code_execution_eng.Services.{Store}
use cloud_code_execution_eng.Common.Keys.{redis_job_key}
use cloud_code_execution_eng.Quota.{decrement_active_quota}
use cloud_code_execution_eng.Effect.Fallible.{ok-injective}
use cloud_code_execution_eng.Runner.Plans.{get_runtime_plan}
use cloud_code_execution_eng.Decode.{decode, decode_from}
use cloud_code_execution_eng.Truncate.{truncate}
use cloud_code_execution_eng.Runner.Execute.{capture, ChildRun, execute_user_code}
use cloud_code_execution_eng.Runner.Execute.Clock.{execute_user_code-duration}
use cloud_code_execution_eng.Runner.Execute.Account.{IsAccount, execute_user_code-IsAccount}
use cloud_code_execution_eng.Runner.Persist.{RunnerEnv, Ended, main}
use cloud_code_execution_eng.Runner.Persist.Delivered.{
  IsPersisted, main-Answers, main-IsPersisted, main-releases_twice, task_env,
}
use cloud_code_execution_eng.Witnesses.Setting.{
  services, empty_store, hello, job, child, spawn_child, hello_result,
}

pub hello_runs : execute_user_code spawn_child 100 10 2 hello ≡ ok hello_result
unfolding execute_user_code get_runtime_plan capture truncate decode decode_from
hello_runs = refl

child_closes :
    (command : String) (args : List String) (stdin : Option String) (timeout_ms : ℕ) (r : ChildRun)
    → spawn_child command args stdin timeout_ms ≡ ok r
    → r.elapsed ≤ timeout_ms + 250
child_closes command args stdin timeout_ms r e =
    let same : child ≡ r = ok-injective e in
    subst (λ (x : ChildRun). x.elapsed ≤ timeout_ms + 250) same (omega arith)

execute_user_code-IsAccount_example : IsAccount spawn_child 100 10 2 hello hello_result
execute_user_code-IsAccount_example =
    execute_user_code-IsAccount spawn_child 100 10 2 hello hello_result hello_runs

execute_user_code-duration_example : hello_result.duration_ms ≤ max 2 1000 + 2 * (100 + 250)
execute_user_code-duration_example =
    execute_user_code-duration spawn_child 100 250 10 2 hello hello_result child_closes hello_runs

abbrev bare_env : RunnerEnv
bare_env = record {
  to_redis = false;
  redis_url = none;
  audit_stream_key = "audit:events";
  max_stdio_bytes = 100;
  billing = record { compute_tier = none; purchase_option = none };
}

abbrev noon : String
noon = "2026-01-31T12:00:00.000Z"

abbrev url : String
url = "redis://redis:6379"

main-Answers_example :
    (ended : Ended) × ((main services spawn_child bare_env
        (err "bad payload")
        10
        2
        noon
        noon
        (calm empty_store)).0
      ≡ ok ended)
main-Answers_example =
    main-Answers services spawn_child 10 2 noon noon bare_env (err "bad payload") (calm empty_store)

main-IsPersisted_example :
    ((main services spawn_child
        (task_env services spawn_child 10 2 noon noon bare_env url)
        (ok job)
        10
        2
        noon
        noon
        (calm empty_store)).0
      ≡ ok (record { printed = none; exit_code = 0 }))
    × IsPersisted services spawn_child 10 2 noon noon job hello_result empty_store
        (main services spawn_child
          (task_env services spawn_child 10 2 noon noon bare_env url)
          (ok job)
          10
          2
          noon
          noon
          (calm empty_store)).1.store
main-IsPersisted_example =
    main-IsPersisted services spawn_child 10 2 noon noon bare_env job hello_result url empty_store
      refl hello_runs

abbrev after_loss : Result Ended × World (Store services)
after_loss =
    main services spawn_child (task_env services spawn_child 10 2 noon noon bare_env url) (ok job)
      10 2 noon noon
      (record {
        net = delivered ∷ delivered ∷ delivered ∷ delivered ∷ delivered ∷ dropped "closed" ∷ [];
        store = empty_store;
      })

main-releases_twice_example :
    (services.hashes.hget (redis_job_key "j1") "status" after_loss.1.store.hashes ≡ some "failed")
    × (after_loss.1.store.counters
        ≡ decrement_active_quota services.counters "a"
            (decrement_active_quota services.counters "a" empty_store.counters))
main-releases_twice_example =
    main-releases_twice services spawn_child 10 2 noon noon bare_env job hello_result url
      empty_store refl hello_runs "closed"
