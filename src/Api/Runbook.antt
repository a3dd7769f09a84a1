-- ===== src/Api/Runbook.antt =====
-- services/api/src/index.ts: app.post("/v1/admin/runbook/dlq"), which starts the task that replays
-- the dead letters. The client of ECS is a parameter, as is `JSON.stringify` of a list of texts.
use cloud_code_execution_eng.Prelude.{
  trim, ◌<◌, ◌≡◌, refl, ◌⊎◌, String, Bool, true, false, ◌||◌, not, Option, none, some, List, [],
  ◌∷◌, length, map, ◌==◌, ◌===◌, if◌then◌else◌, or_else, Bool-cases, inl, inr, arith, All, keep-All,
}
use cloud_code_execution_eng.Effect.{Result, ok, err, World, calm, pure, raise, ◌>>=◌, ◌>>◌}
use cloud_code_execution_eng.Common.Env.{is_missing}
use cloud_code_execution_eng.Redis.Streams.{text}
use cloud_code_execution_eng.Services.{Services, Store}
use cloud_code_execution_eng.Tenants.{TenantPrincipal}
use cloud_code_execution_eng.Worker.Ecs.{Failure}
use cloud_code_execution_eng.Worker.Records.{W}
use cloud_code_execution_eng.Api.Http.{Request, ApiConfig, append_audit_event}
use cloud_code_execution_eng.Api.Auth.{Gate, passes, replies, require_admin, Claims}
use cloud_code_execution_eng.Api.Headers.{parse_id_list, split_commas}

-- The variables of the environment that the handler reads.
pub record RunbookConfig : Type 0 where
  pub ecs_cluster_arn : Option String
  pub task_definition_arn : Option String
  pub subnet_ids : String
  pub security_group_ids : String
  pub assign_public_ip : Bool

-- The input of RunTaskCommand: one task on FARGATE.
pub record ReplayTask : Type 0 where
  pub cluster : Option String
  pub task_definition : Option String
  pub subnets : List String
  pub security_groups : List String
  pub assign_public_ip : Bool

-- The output: the ARN of each task, which may be missing, as may the lists.
pub record ReplayResponse : Type 0 where
  pub tasks : Option (List (Option String))
  pub failures : Option (List Failure)

-- The reply: the status "started" with these.
pub record ReplayStarted : Type 0 where
  pub tasks : List String
  pub failures : List Failure

abbrev arns_in : List (Option String) → List String
arns_in [] = []
arns_in (none ∷ tasks) = arns_in tasks
arns_in (some arn ∷ tasks) = if arn === "" then arns_in tasks else arn ∷ arns_in tasks

abbrev pub task_arns : Option (List (Option String)) → List String
task_arns none = []
task_arns (some tasks) = arns_in tasks

abbrev pub IsId : String → Type 0
IsId id = not (id === "") ≡ true

parse_id_list-All : (value : String) → All IsId (parse_id_list value)
unfolding parse_id_list
parse_id_list-All value = keep-All (λ id. not (id === "")) (map trim (split_commas value))

module _ (sv : Services) (stringify_list : List String → String)
    (send : ReplayTask → Result ReplayResponse) (api : ApiConfig) (config : RunbookConfig)
    (request : Request) where
  abbrev not_configured : String → Gate ReplayStarted
  not_configured error = replies (record {
    code = 503;
    headers = [];
    body = ("error", text error) ∷ ("traceId", text request.trace_id) ∷ [];
  })

  abbrev pub replay_task : List String → List String → ReplayTask
  replay_task subnet_ids security_group_ids = record {
    cluster = config.ecs_cluster_arn;
    task_definition = config.task_definition_arn;
    subnets = subnet_ids;
    security_groups = security_group_ids;
    assign_public_ip = config.assign_public_ip;
  }

  abbrev report : String → ReplayResponse → W sv (Gate ReplayStarted)
  report tenant_id response = do
    append_audit_event sv api.audit_stream_key (record {
      actor = "api";
      action = "admin_runbook_triggered";
      tenant_id = some tenant_id;
      job_id = none;
      metadata =
          ("taskDefinition", text (or_else config.task_definition_arn ""))
          ∷ ("tasks", text (stringify_list (task_arns response.tasks)))
          ∷ ("traceId", text request.trace_id)
          ∷ [];
    })
    pure (
        passes
          (record { tasks = task_arns response.tasks; failures = or_else response.failures [] }) [])

  abbrev reported : String → Result ReplayResponse → W sv (Gate ReplayStarted)
  reported tenant_id (ok response) = report tenant_id response
  reported tenant_id (err message) = raise message

  abbrev run_in : String → List String → List String → W sv (Gate ReplayStarted)
  run_in tenant_id subnet_ids security_group_ids =
      if (length subnet_ids == 0) || (length security_group_ids == 0)
      then pure (not_configured "dlq_replay_network_missing")
      else reported tenant_id (send (replay_task subnet_ids security_group_ids))

  unfoldable pub start_replay : String → W sv (Gate ReplayStarted)
  start_replay tenant_id =
      if is_missing config.ecs_cluster_arn || is_missing config.task_definition_arn
      then pure (not_configured "dlq_replay_not_configured")
      else run_in tenant_id (parse_id_list config.subnet_ids)
          (parse_id_list config.security_group_ids)

  abbrev for_admin : Gate (String × TenantPrincipal) → W sv (Gate ReplayStarted)
  for_admin (replies response) = pure (replies response)
  for_admin (passes (key, tenant) _) = start_replay tenant.tenant_id

  unfoldable pub trigger_dlq_runbook :
      (String → Option Claims) → (String → String) → W sv (Gate ReplayStarted)
  trigger_dlq_runbook verify fingerprint =
      require_admin api verify fingerprint sv request >>= for_admin

  -- A task that can run: nothing that it names is missing.
  pub record IsRunnable (task : ReplayTask) : Type 0 where
    pub cluster : is_missing task.cluster ≡ false
    pub task_definition : is_missing task.task_definition ≡ false
    pub subnets : (0 < length task.subnets) × All IsId task.subnets
    pub security_groups : (0 < length task.security_groups) × All IsId task.security_groups

  abbrev pub network_task : ReplayTask
  network_task =
      replay_task (parse_id_list config.subnet_ids) (parse_id_list config.security_group_ids)

  -- What ECS answers is what is told.
  abbrev pub Told :
      Store sv → Result ReplayResponse → Result (Gate ReplayStarted) × World (Store sv) → Type 0
  Told s (ok response) r =
      r.0
      ≡ ok (
          passes
            (record { tasks = task_arns response.tasks; failures = or_else response.failures [] })
            [])
  Told s (err message) r = r ≡ (err message, calm s)

  reported-Told :
      (tenant_id : String) (s : Store sv) (answer : Result ReplayResponse)
      → Told s answer (reported tenant_id answer (calm s))
  reported-Told tenant_id s (ok response) = refl
  reported-Told tenant_id s (err message) = refl

  -- When every call is answered, the start of a replay either is refused with 503 and changes
  -- nothing, or its task names a cluster, a task definition, a subnet and a security group, none of
  -- them empty; that task is sent, and the reply tells the ARNs and the failures that ECS answered
  -- with, or the error is thrown.
  pub start_replay-Told :
      (tenant_id : String) (s : Store sv)
      → ((error : String) × (start_replay tenant_id (calm s) ≡ (ok (not_configured error), calm s)))
        ⊎ (IsRunnable network_task × Told s (send network_task) (start_replay tenant_id (calm s)))
  unfolding start_replay
  start_replay-Told tenant_id s =
      elim (Bool-cases
        (is_missing config.ecs_cluster_arn || is_missing config.task_definition_arn)) [
          | inl unset ↦ inl ("dlq_replay_not_configured", rw unset refl)
          | inr set ↦ elim (Bool-cases no_network) [
            | inl alone ↦ inl ("dlq_replay_network_missing", rw (set, alone) refl)
            | inr met ↦ inr (
              record {
                cluster = ground arith;
                task_definition = ground arith;
                subnets = (ground arith, parse_id_list-All config.subnet_ids);
                security_groups = (ground arith, parse_id_list-All config.security_group_ids);
              },
              rw (set, met) (reported-Told tenant_id s (send network_task)),
            )
          ]
        ]
    where
      no_network : Bool
      no_network =
          (length (parse_id_list config.subnet_ids) == 0)
          || (length (parse_id_list config.security_group_ids) == 0)
