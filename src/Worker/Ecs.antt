-- ===== src/Worker/Ecs.antt =====
-- services/worker/src/runners/ecs-runner.ts. `client.send` is a parameter: what ECS answers to a
-- task, or the error that it throws.
pub mod Outcome
use Prim.Native.String.{◌++◌}
use cloud_code_execution_eng.Prelude.{
  ℕ, String, Bool, true, false, ◌||◌, not, Option, none, some, List, [], ◌∷◌, show, or_else,
  if◌then◌else◌, ◌===◌, finds_text, finds_texts,
}
use cloud_code_execution_eng.Effect.{Result, ok, err}
use cloud_code_execution_eng.Effect.Fallible.{◌>>=◌, caught}
use cloud_code_execution_eng.Common.Jobs.{QueueJobPayload}
use cloud_code_execution_eng.Common.Tiers.{
  RunnerComputeTier, small, medium, large, RunnerPurchaseOption, spot, on_demand, tier_name,
  purchase_name, select_runner_compute_tier,
}

pub record EcsConfig : Type 0 where
  pub cluster_arn : Option String
  pub task_definition_arns : RunnerComputeTier → Option String
  pub subnet_ids : List String
  pub security_group_ids : List String
  pub assign_public_ip : Bool
  pub runner_container_name : String
  pub spot_enabled : Bool
  pub on_demand_fallback_enabled : Bool
  pub audit_stream_key : String
  pub max_stdio_bytes : ℕ

-- The input of RunTaskCommand: with spot capacity no launch type is given, else it is FARGATE.
pub record RunTask : Type 0 where
  pub cluster : Option String
  pub task_definition : String
  pub started_by : String
  pub launch_type : Option String
  pub capacity_provider : Option String
  pub subnets : List String
  pub security_groups : List String
  pub assign_public_ip : Bool
  pub container : String
  pub environment : List (String × String)

pub record Failure : Type 0 where
  pub reason : Option String
  pub detail : Option String

pub record RunTaskResponse : Type 0 where
  pub failures : List Failure
  pub task_arns : List (Option String)

pub record RunnerDispatchResult : Type 0 where
  pub task_arn : String
  pub task_definition_arn : String
  pub compute_tier : RunnerComputeTier
  pub purchase_option : RunnerPurchaseOption

unfoldable pub is_spot_capacity_failure_message : String → Bool
is_spot_capacity_failure_message message =
    finds_text "spot" message
    || finds_text "resource:fargate" message
    || finds_texts "capacity " "unavailable" message
    || finds_texts "capacity" "not available" message
    || finds_text "insufficient" message
    || finds_texts "fargate" "capacity" message

-- `response.tasks?.[0]?.taskArn`, if it is not empty.
abbrev pub first_arn : List (Option String) → Result String
first_arn (some arn ∷ _) = if arn === "" then err "ECS dispatch returned no task ARN" else ok arn
first_arn _ = err "ECS dispatch returned no task ARN"

abbrev pub unless_failed : Option String → Result String → Result String
unless_failed none r = r
unless_failed (some message) r = if message === "" then r else err message

abbrev missing_definition : RunnerComputeTier → String
missing_definition tier = "Missing ECS task definition ARN for compute tier " ++ tier_name tier

abbrev pub present : Option String → String → Result String
present none message = err message
present (some arn) message = if arn === "" then err message else ok arn

-- `encode` is base64 of the payload's JSON, and `trim` is that of JavaScript.
module _ (encode : QueueJobPayload → String) (trim : String → String)
    (send : RunTask → Result RunTaskResponse) (config : EcsConfig) (payload : QueueJobPayload) where
  unfoldable pub build_failure_message : List Failure → Option String
  build_failure_message [] = none
  build_failure_message (f ∷ _) = some (
      trim
        ("ECS dispatch failure: " ++ (or_else f.reason "unknown" ++ (" " ++ or_else f.detail ""))))

  unfoldable pub build_container_environment :
      RunnerComputeTier → RunnerPurchaseOption → List (String × String)
  build_container_environment tier purchase =
      ("RESULT_BACKEND", "redis")
      ∷ ("AUDIT_STREAM_KEY", config.audit_stream_key)
      ∷ ("JOB_DATA_B64", encode payload)
      ∷ ("MAX_STDIO_BYTES", show config.max_stdio_bytes)
      ∷ ("RUNNER_COMPUTE_TIER", tier_name tier)
      ∷ ("RUNNER_PURCHASE_OPTION", purchase_name purchase)
      ∷ []

  unfoldable pub run_task : String → RunnerComputeTier → RunnerPurchaseOption → Bool → RunTask
  unfolding build_container_environment
  run_task task_definition_arn tier purchase use_spot_capacity = record {
    cluster = config.cluster_arn;
    task_definition = task_definition_arn;
    started_by = "job-" ++ payload.job_id;
    launch_type = if use_spot_capacity then none else some "FARGATE";
    capacity_provider = if use_spot_capacity then some "FARGATE_SPOT" else none;
    subnets = config.subnet_ids;
    security_groups = config.security_group_ids;
    assign_public_ip = config.assign_public_ip;
    container = config.runner_container_name;
    environment = build_container_environment tier purchase;
  }

  unfoldable pub send_run_task :
      String → RunnerComputeTier → RunnerPurchaseOption → Bool → Result String
  send_run_task task_definition_arn tier purchase use_spot_capacity = do
    response ← send (run_task task_definition_arn tier purchase use_spot_capacity)
    unless_failed (build_failure_message response.failures) (first_arn response.task_arns)

  unfoldable pub get_task_definition_arn : RunnerComputeTier → Result String
  get_task_definition_arn tier =
      present (config.task_definition_arns tier) (missing_definition tier)

  unfoldable pub dispatch_as :
      String → RunnerComputeTier → RunnerPurchaseOption → Bool → Result RunnerDispatchResult
  dispatch_as arn tier purchase use_spot_capacity = do
    task_arn ← send_run_task arn tier purchase use_spot_capacity
    ok (record {
      task_arn = task_arn;
      task_definition_arn = arn;
      compute_tier = tier;
      purchase_option = purchase;
    })

  -- The `catch` of the first, spot attempt.
  unfoldable pub fall_back : String → RunnerComputeTier → String → Result RunnerDispatchResult
  fall_back arn tier message =
      if not config.on_demand_fallback_enabled || not (is_spot_capacity_failure_message message)
      then err message
      else dispatch_as arn tier on_demand false

  unfoldable pub dispatch_to : RunnerComputeTier → String → Result RunnerDispatchResult
  unfolding fall_back
  dispatch_to tier arn =
      if not config.spot_enabled
      then dispatch_as arn tier on_demand false
      else caught (dispatch_as arn tier spot true) (fall_back arn tier)

  unfoldable pub dispatch_ecs_runner : Result RunnerDispatchResult
  dispatch_ecs_runner = do
    _ ← present config.cluster_arn "ECS configuration is missing"
    arn ← get_task_definition_arn (select_runner_compute_tier payload.request.cpu_millicores)
    dispatch_to (select_runner_compute_tier payload.request.cpu_millicores) arn
