-- ===== src/Worker/Ecs/Outcome.antt =====
-- What dispatchEcsRunner of services/worker/src/runners/ecs-runner.ts gives back and what it asked
-- ECS for.
use cloud_code_execution_eng.Prelude.{
  ◌≡◌, String, Bool, true, false, ◌&&◌, some, arith, if◌then◌else◌, ◌===◌,
}
use cloud_code_execution_eng.Effect.{Result, ok, err}
use cloud_code_execution_eng.Effect.Fallible.{◌>>=◌}
use cloud_code_execution_eng.Common.Jobs.{QueueJobPayload}
use cloud_code_execution_eng.Common.Tiers.{
  RunnerComputeTier, RunnerPurchaseOption, spot, on_demand, select_runner_compute_tier,
}
use cloud_code_execution_eng.Worker.Ecs.{
  EcsConfig, RunTask, RunTaskResponse, RunnerDispatchResult, is_spot_capacity_failure_message,
  run_task, send_run_task, first_arn, dispatch_as, fall_back, get_task_definition_arn,
  dispatch_ecs_runner, present, dispatch_to,
}

abbrev pub is_spot : RunnerPurchaseOption → Bool
is_spot spot = true
is_spot on_demand = false

module _ (encode : QueueJobPayload → String) (trim : String → String)
    (send : RunTask → Result RunTaskResponse) (config : EcsConfig) (payload : QueueJobPayload) where
  abbrev pub asked : RunnerDispatchResult → RunTask
  asked r =
      run_task encode trim send config payload r.task_definition_arn r.compute_tier
        r.purchase_option (is_spot r.purchase_option)

  -- A dispatch that was accepted: ECS was sent the task that the result describes, with the
  -- capacity that the result bills, and answered with its ARN.
  pub record IsDispatched (r : RunnerDispatchResult) : Type 0 where
    pub tier_chosen : r.compute_tier ≡ select_runner_compute_tier payload.request.cpu_millicores
    pub configured : config.task_definition_arns r.compute_tier ≡ some r.task_definition_arn
    pub response : RunTaskResponse
    pub answered : send (asked r) ≡ ok response
    pub arn : first_arn response.task_arns ≡ ok r.task_arn
    pub spot_allowed : r.purchase_option ≡ spot → config.spot_enabled ≡ true

  abbrev tier : RunnerComputeTier
  tier = select_runner_compute_tier payload.request.cpu_millicores

  abbrev cluster : Result String
  cluster = present config.cluster_arn "ECS configuration is missing"

  -- With a cluster and a task definition at hand and spot capacity enabled, a spot attempt that
  -- fails is followed by one attempt on demand exactly where the fallback is enabled and the message
  -- speaks of capacity; otherwise the error of the spot attempt is thrown.
  pub dispatch_ecs_runner-fall_back :
      (arn message : String)
      → config.task_definition_arns tier ≡ some arn
      → (arn === "") ≡ false
      → ((a : String) × (cluster ≡ ok a))
      → config.spot_enabled ≡ true
      → send_run_task encode trim send config payload arn tier spot true ≡ err message
      → dispatch_ecs_runner encode trim send config payload ≡ (
          if config.on_demand_fallback_enabled && is_spot_capacity_failure_message message
          then (do
            task_arn ← send_run_task encode trim send config payload arn tier on_demand false
            ok (record {
              task_arn = task_arn;
              task_definition_arn = arn;
              compute_tier = tier;
              purchase_option = on_demand;
            }))
          else err message)
  unfolding dispatch_ecs_runner get_task_definition_arn dispatch_to dispatch_as fall_back
  dispatch_ecs_runner-fall_back arn message c n (a, e) on failed = ground arith
