-- ===== src/Worker/Config.antt =====
-- services/worker/src/config.ts: the variables of the environment that the handlers depend on, and
-- the two checks on the backend. The settings of Redis, of the queues' names, of the metric and of
-- telemetry are left out.
pub mod Ready
use cloud_code_execution_eng.Prelude.{
  ℕ, String, Bool, true, false, ◌&&◌, ◌||◌, not, Option, none, some, List, [], keep, map, leb,
  length, ◌==◌, ◌===◌, if◌then◌else◌, or_else, trim,
}
use cloud_code_execution_eng.Effect.{Result, ok, err}
use cloud_code_execution_eng.Effect.Fallible.{◌>>=◌}
use cloud_code_execution_eng.Common.Env.{refused, bounded, parse_number, is_missing}
use cloud_code_execution_eng.Common.Schema.{units}
use cloud_code_execution_eng.Common.Tiers.{RunnerComputeTier, small, medium, large}
use cloud_code_execution_eng.Api.Headers.{split_commas}
use cloud_code_execution_eng.Worker.Ecs.{EcsConfig}
use cloud_code_execution_eng.Worker.Process.{ExecutionBackend, local, ecs, WorkerConfig}

pub record WorkerEnv : Type 0 where
  pub job_ttl_seconds : Option String
  pub audit_stream_key : Option String
  pub queue_job_attempts : Option String
  pub execution_backend : Option String
  pub runner_image : Option String
  pub max_stdio_bytes : Option String
  pub ecs_cluster_arn : Option String
  pub ecs_task_definition_arn : Option String
  pub ecs_task_definition_arn_small : Option String
  pub ecs_task_definition_arn_medium : Option String
  pub ecs_task_definition_arn_large : Option String
  pub ecs_subnet_ids : Option String
  pub ecs_security_group_ids : Option String
  pub ecs_assign_public_ip : Option String
  pub ecs_runner_container_name : Option String
  pub ecs_runner_spot_enabled : Option String
  pub ecs_runner_ondemand_fallback_enabled : Option String

-- A choice of two words, which read as true and false.
abbrev parse_choice : String → String → Bool → Option String → Result Bool
parse_choice one other usual none = ok usual
parse_choice one other usual (some value) =
    if value === one then ok true else if value === other then ok false else refused

unfoldable pub boolean_string : Bool → Option String → Result Bool
boolean_string usual value = parse_choice "true" "false" usual value

abbrev pub parse_backend : Option String → Result ExecutionBackend
parse_backend none = ok local
parse_backend (some value) =
    if value === "local" then ok local else if value === "ecs" then ok ecs else refused

-- `z.string().min(1).default(usual)`.
abbrev pub parse_text : String → Option String → Result String
parse_text usual none = ok usual
parse_text usual (some value) = if leb 1 (units value) then ok value else refused

unfoldable pub to_list : Option String → List String
to_list none = []
to_list (some value) =
    if value === "" then [] else keep (λ item. not (item === "")) (map trim (split_commas value))

-- `parsed.ECS_TASK_DEFINITION_ARN_… || parsed.ECS_TASK_DEFINITION_ARN`.
abbrev first_of : Option String → Option String → Option String
first_of own other = if is_missing own then other else own

abbrev pub task_definition_arns : WorkerEnv → RunnerComputeTier → Option String
task_definition_arns env small =
    first_of env.ecs_task_definition_arn_small env.ecs_task_definition_arn
task_definition_arns env medium =
    first_of env.ecs_task_definition_arn_medium env.ecs_task_definition_arn
task_definition_arns env large =
    first_of env.ecs_task_definition_arn_large env.ecs_task_definition_arn

abbrev pub is_ecs : ExecutionBackend → Bool
is_ecs local = false
is_ecs ecs = true

abbrev pub unaddressed : EcsConfig → Bool
unaddressed c =
    is_missing c.cluster_arn
    || is_missing (c.task_definition_arns small)
    || is_missing (c.task_definition_arns medium)
    || is_missing (c.task_definition_arns large)

abbrev pub unconnected : EcsConfig → Bool
unconnected c = (length c.subnet_ids == 0) || (length c.security_group_ids == 0)

-- The two checks behind the schema.
abbrev pub checked_config : WorkerConfig → Result WorkerConfig
checked_config c =
    if is_ecs c.execution_backend && unaddressed c.ecs
    then err "ECS cluster ARN and runner task definition ARNs are required for ecs backend"
    else if is_ecs c.execution_backend && unconnected c.ecs
    then err "ECS_SUBNET_IDS and ECS_SECURITY_GROUP_IDS are required for ecs backend"
    else ok c

-- `z.coerce.number().int().positive().default(usual)`.
abbrev pub parse_positive : (String → Option ℕ) → ℕ → Option String → Result ℕ
parse_positive to_number usual none = ok usual
parse_positive to_number usual (some value) = positive (to_number value)
  where
    positive : Option ℕ → Result ℕ
    positive none = refused
    positive (some n) = if leb 1 n then ok n else refused

module _ (to_number : String → Option ℕ) where
  unfoldable pub parse_env : WorkerEnv → Result WorkerConfig
  parse_env env = do
    ttl ← parse_positive to_number 86_400 env.job_ttl_seconds
    stream_key ← parse_text "audit:events" env.audit_stream_key
    attempts ← parse_number to_number 1 10 3 env.queue_job_attempts
    backend ← parse_backend env.execution_backend
    image ← parse_text "ccee-runner:local" env.runner_image
    stdio ← parse_number to_number 1 1_000_000 65_536 env.max_stdio_bytes
    public_ip ← parse_choice "ENABLED" "DISABLED" false env.ecs_assign_public_ip
    spot ← boolean_string true env.ecs_runner_spot_enabled
    fallback ← boolean_string true env.ecs_runner_ondemand_fallback_enabled
    ok (record {
      execution_backend = backend;
      runner_image = image;
      max_stdio_bytes = stdio;
      job_ttl_seconds = ttl;
      audit_stream_key = stream_key;
      queue_job_attempts = attempts;
      ecs = record {
        cluster_arn = env.ecs_cluster_arn;
        task_definition_arns = task_definition_arns env;
        subnet_ids = to_list env.ecs_subnet_ids;
        security_group_ids = to_list env.ecs_security_group_ids;
        assign_public_ip = public_ip;
        runner_container_name = or_else env.ecs_runner_container_name "runner";
        spot_enabled = spot;
        on_demand_fallback_enabled = fallback;
        audit_stream_key = stream_key;
        max_stdio_bytes = stdio;
      };
    })

  unfoldable pub load_config : WorkerEnv → Result WorkerConfig
  unfolding parse_env
  load_config env = parse_env env >>= checked_config
