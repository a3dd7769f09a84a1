-- ===== src/Witnesses/Journeys.antt =====
-- The theorems on a job's whole way, on what the network loses of an attempt, and on what the API
-- tells of its runtimes and its numbers.
use cloud_code_execution_eng.Prelude.{
  ◌≡◌, ne_of_test, refl, String, Bool, true, some, [], ◌∷◌, arith,
}
use cloud_code_execution_eng.Effect.{ok, err, delivered, dropped}
use cloud_code_execution_eng.Common.Jobs.{QueueJobPayload}
use cloud_code_execution_eng.Common.Keys.{tenant_active_jobs_key, tenant_daily_jobs_key}
use cloud_code_execution_eng.Common.Keys.Distinct.{IsDateKey}
use cloud_code_execution_eng.Common.Schema.{payload_fits, units}
use cloud_code_execution_eng.Quota.{allowed, reserve_quota, reserve_script, decrement_active_quota}
use cloud_code_execution_eng.Worker.Local.{execute_local_runner}
use cloud_code_execution_eng.Worker.Local.Protocol.{execute_local_runner-reads}
use cloud_code_execution_eng.Worker.Process.{completed, process_job, on_failed}
use cloud_code_execution_eng.Worker.Attempts.{IsAtMostOne, process_job-AtMostOne}
use cloud_code_execution_eng.Worker.Attempts.Twice.{
  first, again, charged_on_day, cost, process_job-releases_twice,
}
use cloud_code_execution_eng.Journey.{IsServed, journey, payload, reservation}
use cloud_code_execution_eng.Witnesses.Setting.{
  services, empty_store, job, hello, hello_result, today,
}
use cloud_code_execution_eng.Witnesses.Calls.{config, request, tenant}
use cloud_code_execution_eng.Witnesses.Work.{
  encode, trim, docker, send, config_for_local, docker_answers, noon, one_line,
}

abbrev is_uuid : String → Bool
is_uuid id = true

abbrev sent : QueueJobPayload
sent =
    payload services config is_uuid "" request "j1" noon today tenant hello encode trim docker send
      config_for_local noon noon empty_store

docker_runs :
    execute_local_runner encode trim services.parse_result docker sent "ccee-runner:local" 100
    ≡ ok hello_result
docker_runs =
    execute_local_runner-reads encode trim services.parse_result docker sent "ccee-runner:local" "1"
      100 hello_result
      (record {
        stdout_chunks = (49 ∷ []) ∷ (10 ∷ []) ∷ [];
        stderr_chunks = [];
        exit_code = some 0;
      })
      ((omega arith, tt)) refl refl (ne_of_test "1" "" refl) refl refl (refl, (refl, tt)) one_line
      (omega arith)

given :
    (reservation services config is_uuid "" request "j1" noon today tenant hello encode trim docker
      send config_for_local noon noon empty_store).0
    ≡ allowed 1 1 today
unfolding reserve_quota reserve_script tenant_active_jobs_key tenant_daily_jobs_key
given = refl

dated : IsDateKey today
unfolding IsDateKey
dated = refl

sent_fits : payload_fits is_uuid sent ≡ true
unfolding payload_fits units
sent_fits = refl

journey_example :
    IsServed services config is_uuid "" request "j1" noon today tenant hello encode trim docker send
      config_for_local noon noon empty_store hello_result
journey_example =
    journey services config is_uuid "" request "j1" noon today tenant hello encode trim docker send
      config_for_local noon noon empty_store 1 1 dated (omega arith) given hello_result
      (omega arith) sent_fits refl (omega arith) docker_runs (ne_of_test "1" "" refl) refl

process_job-AtMostOne_example :
    IsAtMostOne services encode trim docker send config_for_local job empty_store.counters
      (process_job services encode trim docker send config_for_local job 0 noon noon (record {
        net = delivered ∷ dropped "ECONNRESET" ∷ [];
        store = empty_store;
      })).1.store.counters
    × IsAtMostOne services encode trim docker send config_for_local job empty_store.counters
        (on_failed services encode trim docker send config_for_local job 0 3 "boom" noon "17"
          (record {
            net = delivered ∷ dropped "ECONNRESET" ∷ [];
            store = empty_store;
          })).1.store.counters
process_job-AtMostOne_example =
    process_job-AtMostOne services encode trim docker send config_for_local job 0 3 noon noon "boom"
      "17" (record { net = delivered ∷ dropped "ECONNRESET" ∷ []; store = empty_store })

process_job-releases_twice_example :
    ((first services encode trim docker send config_for_local job noon noon "ECONNRESET" "17" 3
        empty_store).0
      ≡ err "ECONNRESET")
    × ((again services encode trim docker send config_for_local job noon noon "ECONNRESET" "17" 3
          empty_store).0
        ≡ ok (completed hello_result))
    × ((again services encode trim docker send config_for_local job noon noon "ECONNRESET" "17" 3
          empty_store).1.store.counters
        ≡ decrement_active_quota services.counters "a"
            (decrement_active_quota services.counters "a" empty_store.counters))
    × (charged_on_day services encode trim docker send config_for_local job noon noon "ECONNRESET"
          "17" 3 empty_store
          (again services encode trim docker send config_for_local job noon noon "ECONNRESET" "17" 3
            empty_store).1.store
        ≡ services.floats.add
            (services.floats.add 0 (
              cost services encode trim docker send config_for_local job noon noon "ECONNRESET" "17"
                3 empty_store hello_result))
            (cost services encode trim docker send config_for_local job noon noon "ECONNRESET" "17"
              3 empty_store hello_result))
process_job-releases_twice_example =
    process_job-releases_twice services encode trim docker send config_for_local job noon noon
      "ECONNRESET" "17" 3 empty_store hello_result refl (omega arith) (omega arith) docker_answers
