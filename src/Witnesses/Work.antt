-- ===== src/Witnesses/Work.antt =====
-- The worker's theorems for one job.
use cloud_code_execution_eng.Prelude.{
  ℕ, len, none, ◌≡◌, ne_of_test, refl, String, true, false, Option, some, List, [], ◌∷◌, arith,
}
use cloud_code_execution_eng.Effect.{Result, ok, calm}
use cloud_code_execution_eng.Common.Jobs.{QueueJobPayload}
use cloud_code_execution_eng.Common.Tiers.{RunnerComputeTier, small, spot}
use cloud_code_execution_eng.Decode.{decode, decode_from, all_bytes}
use cloud_code_execution_eng.Worker.Ecs.{EcsConfig, RunTask, RunTaskResponse, RunnerDispatchResult}
use cloud_code_execution_eng.Worker.Local.{DockerRun, execute_local_runner}
use cloud_code_execution_eng.Worker.Local.Protocol.{execute_local_runner-reads}
use cloud_code_execution_eng.Worker.Process.{
  local, ecs, WorkerConfig, queue_depth_metric, get_queue_depth, QueueDepthMetric,
}
use cloud_code_execution_eng.Worker.Config.{
  WorkerEnv, boolean_string, to_list, task_definition_arns, parse_env, load_config,
}
use cloud_code_execution_eng.Worker.Config.Ready.{IsReady, load_config-IsReady}
use cloud_code_execution_eng.Worker.Failures.{failed_handler, IsGivenUp, on_failed-IsGivenUp}
use cloud_code_execution_eng.Worker.Lifecycle.{processed, IsCompleted, process_job-IsCompleted}
use cloud_code_execution_eng.Witnesses.Setting.{services, empty_store, job, hello_result}

abbrev ten_wait : QueueDepthMetric
ten_wait = record { queue_depth = 10; scale_signal = 26 }

ten_wait_metric : queue_depth_metric ecs 25 10 ≡ some ten_wait
unfolding queue_depth_metric get_queue_depth
ten_wait_metric = refl

abbrev arn_of : RunnerComputeTier → Option String
arn_of tier = some "arn:definition"

abbrev ecs_config : EcsConfig
ecs_config = record {
  cluster_arn = some "arn:cluster";
  task_definition_arns = arn_of;
  subnet_ids = "subnet-1" ∷ [];
  security_group_ids = "sg-1" ∷ [];
  assign_public_ip = false;
  runner_container_name = "runner";
  spot_enabled = true;
  on_demand_fallback_enabled = true;
  audit_stream_key = "audit:events";
  max_stdio_bytes = 100;
}

abbrev pub config_for_local : WorkerConfig
config_for_local = record {
  execution_backend = local;
  runner_image = "ccee-runner:local";
  max_stdio_bytes = 100;
  job_ttl_seconds = 86400;
  audit_stream_key = "audit:events";
  queue_job_attempts = 3;
  ecs = ecs_config;
}

abbrev pub encode : QueueJobPayload → String
encode p = p.job_id

abbrev pub trim : String → String
trim s = s

abbrev pub docker : List String → Result DockerRun
docker args =
    ok (record {
      stdout_chunks = (49 ∷ []) ∷ (10 ∷ []) ∷ [];
      stderr_chunks = [];
      exit_code = some 0;
    })

abbrev pub send : RunTask → Result RunTaskResponse
send task = ok (record { failures = []; task_arns = some "arn:task" ∷ [] })

pub one_line : decode (all_bytes ((49 ∷ []) ∷ (10 ∷ []) ∷ [])) ≡ "1\n"
unfolding decode decode_from
one_line = refl

pub docker_answers :
    execute_local_runner encode trim services.parse_result docker job "ccee-runner:local" 100
    ≡ ok hello_result
docker_answers =
    execute_local_runner-reads encode trim services.parse_result docker job "ccee-runner:local" "1"
      100 hello_result
      (record {
        stdout_chunks = (49 ∷ []) ∷ (10 ∷ []) ∷ [];
        stderr_chunks = [];
        exit_code = some 0;
      })
      ((omega arith, tt)) refl refl (ne_of_test "1" "" refl) refl refl (refl, (refl, tt)) one_line
      (omega arith)

execute_local_runner-reads_example :
    execute_local_runner encode trim services.parse_result docker job "ccee-runner:local" 100
    ≡ ok hello_result
execute_local_runner-reads_example =
    execute_local_runner-reads encode trim services.parse_result docker job "ccee-runner:local" "1"
      100 hello_result
      (record {
        stdout_chunks = (49 ∷ []) ∷ (10 ∷ []) ∷ [];
        stderr_chunks = [];
        exit_code = some 0;
      })
      ((omega arith, tt)) refl refl (ne_of_test "1" "" refl) refl refl (refl, (refl, tt)) one_line
      (omega arith)

abbrev dispatch : RunnerDispatchResult
dispatch = record {
  task_arn = "arn:task";
  task_definition_arn = "arn:definition";
  compute_tier = small;
  purchase_option = spot;
}

abbrev pub noon : String
noon = "2026-01-31T12:00:00.000Z"

process_job-IsCompleted_example :
    IsCompleted services encode trim docker send config_for_local job 0 noon noon empty_store
      hello_result
      (processed services encode trim docker send config_for_local job 0 noon noon empty_store)
process_job-IsCompleted_example =
    process_job-IsCompleted services encode trim docker send config_for_local job 0 noon noon
      empty_store hello_result refl (omega arith) docker_answers

on_failed-IsGivenUp_example :
    IsGivenUp services encode trim docker send config_for_local job 3 "boom" noon "17" empty_store
      (failed_handler services encode trim docker send config_for_local job 3 3 "boom" noon "17"
        (calm empty_store)).1.store
on_failed-IsGivenUp_example =
    on_failed-IsGivenUp services encode trim docker send config_for_local job 3 3 "boom" noon "17"
      empty_store (omega arith) (omega arith)

-- Three definitions from one variable; everything else as it is by default.
abbrev worker_env : WorkerEnv
worker_env = record {
  job_ttl_seconds = none;
  audit_stream_key = none;
  queue_job_attempts = none;
  execution_backend = some "ecs";
  runner_image = none;
  max_stdio_bytes = none;
  ecs_cluster_arn = some "arn:cluster";
  ecs_task_definition_arn = some "arn:definition";
  ecs_task_definition_arn_small = none;
  ecs_task_definition_arn_medium = none;
  ecs_task_definition_arn_large = none;
  ecs_subnet_ids = some "subnet-1, subnet-2";
  ecs_security_group_ids = some "sg-1";
  ecs_assign_public_ip = none;
  ecs_runner_container_name = none;
  ecs_runner_spot_enabled = none;
  ecs_runner_ondemand_fallback_enabled = some "false";
}

abbrev to_number : String → Option ℕ
to_number text = some (len text)

abbrev worker_config : WorkerConfig
worker_config = record {
  execution_backend = ecs;
  runner_image = "ccee-runner:local";
  max_stdio_bytes = 65_536;
  job_ttl_seconds = 86_400;
  audit_stream_key = "audit:events";
  queue_job_attempts = 3;
  ecs = record {
    cluster_arn = some "arn:cluster";
    task_definition_arns = task_definition_arns worker_env;
    subnet_ids = "subnet-1" ∷ "subnet-2" ∷ [];
    security_group_ids = "sg-1" ∷ [];
    assign_public_ip = false;
    runner_container_name = "runner";
    spot_enabled = true;
    on_demand_fallback_enabled = false;
    audit_stream_key = "audit:events";
    max_stdio_bytes = 65_536;
  };
}

worker_accepts : load_config to_number worker_env ≡ ok worker_config
unfolding load_config parse_env boolean_string to_list cloud_code_execution_eng.Prelude.trim
worker_accepts = refl

load_config-IsReady_example : IsReady encode trim send job worker_config
load_config-IsReady_example =
    load_config-IsReady encode trim send job to_number worker_env worker_config worker_accepts
