-- ===== src/Worker/Config/Ready.antt =====
-- What an accepted configuration of services/worker/src/config.ts means for the handlers of
-- services/worker/src/index.ts and for the dispatch of services/worker/src/runners/ecs-runner.ts.
use Prim.Native.String.{◌++◌}
use cloud_code_execution_eng.Prelude.{
  ℕ, ◌<◌, ◌≤◌, ◌≡◌, refl, subst, String, true, false, ◌&&◌, Option, none, some, length, arith,
  Bool-cases, inl, inr, ◌⊎◌,
}
use cloud_code_execution_eng.Effect.{Result, ok, err}
use cloud_code_execution_eng.Effect.Fallible.{bind-eq-ok, ok-injective}
use cloud_code_execution_eng.Common.Env.{parse_number, is_missing, parse_number-bounds}
use cloud_code_execution_eng.Common.Jobs.{QueueJobPayload}
use cloud_code_execution_eng.Common.Tiers.{RunnerComputeTier, small, medium, large, tier_name}
use cloud_code_execution_eng.Worker.Ecs.{
  EcsConfig, RunTask, RunTaskResponse, present, get_task_definition_arn,
}
use cloud_code_execution_eng.Worker.Process.{ExecutionBackend, local, ecs, WorkerConfig}
use cloud_code_execution_eng.Worker.Config.{
  WorkerEnv, parse_positive, parse_text, parse_backend, boolean_string, parse_choice, is_ecs,
  unaddressed, unconnected, checked_config, parse_env, load_config,
}

parse_positive-lt :
    (to_number : String → Option ℕ) (usual n : ℕ) (value : Option String)
    → 0 < usual
    → parse_positive to_number usual value ≡ ok n
    → 0 < n
parse_positive-lt to_number usual n none h e = ground arith
parse_positive-lt to_number usual n (some value) h e = ground arith

record IsBounded (c : WorkerConfig) : Type 0 where
  lives : 0 < c.job_ttl_seconds
  attempts : (1 ≤ c.queue_job_attempts) × (c.queue_job_attempts ≤ 10)
  stdio : (1 ≤ c.max_stdio_bytes) × (c.max_stdio_bytes ≤ 1_000_000)

parse_env-IsBounded :
    (to_number : String → Option ℕ) (env : WorkerEnv) (c : WorkerConfig)
    → parse_env to_number env ≡ ok c
    → IsBounded c
unfolding parse_env
parse_env-IsBounded to_number env c e =
    let (ttl, t, e1) = bind-eq-ok (parse_positive to_number 86_400 env.job_ttl_seconds) _ c e in
    let (key, _, e2) = bind-eq-ok (parse_text "audit:events" env.audit_stream_key) _ c e1 in
    let (attempts, a, e3) =
      bind-eq-ok (parse_number to_number 1 10 3 env.queue_job_attempts) _ c e2 in
    let (backend, _, e4) = bind-eq-ok (parse_backend env.execution_backend) _ c e3 in
    let (image, _, e5) = bind-eq-ok (parse_text "ccee-runner:local" env.runner_image) _ c e4 in
    let (stdio, s, e6) =
      bind-eq-ok (parse_number to_number 1 1_000_000 65_536 env.max_stdio_bytes) _ c e5 in
    let (ip, _, e7) =
      bind-eq-ok (parse_choice "ENABLED" "DISABLED" false env.ecs_assign_public_ip) _ c e6 in
    let (spot, _, e8) = bind-eq-ok (boolean_string true env.ecs_runner_spot_enabled) _ c e7 in
    let (fallback, _, e9) =
      bind-eq-ok (boolean_string true env.ecs_runner_ondemand_fallback_enabled) _ c e8 in
    subst (λ (x : WorkerConfig). IsBounded x) (ok-injective e9)
      (record {
        lives = parse_positive-lt to_number 86_400 ttl env.job_ttl_seconds (omega arith) t;
        attempts =
            parse_number-bounds to_number 1 10 3 attempts env.queue_job_attempts (omega arith)
              (omega arith) a;
        stdio =
            parse_number-bounds to_number 1 1_000_000 65_536 stdio env.max_stdio_bytes (omega arith)
              (omega arith) s;
      })

-- What the checks behind the schema add: no variable that a dispatch needs is missing.
abbrev IsConnected : WorkerConfig → Type 0
IsConnected c =
    ((is_ecs c.execution_backend && unaddressed c.ecs) ≡ false)
    × ((is_ecs c.execution_backend && unconnected c.ecs) ≡ false)

checked_config-IsConnected :
    (d c : WorkerConfig) → IsBounded d → checked_config d ≡ ok c → IsBounded c × IsConnected c
checked_config-IsConnected d c h e =
    elim (Bool-cases (is_ecs d.execution_backend && unaddressed d.ecs)) [
      | inl a ↦
          let impossible : err
                "ECS cluster ARN and runner task definition ARNs are required for ecs backend"
              ≡ ok c =
            rw a at e in
          absurd (cc impossible)
      | inr a ↦ elim (Bool-cases (is_ecs d.execution_backend && unconnected d.ecs)) [
        | inl b ↦
            let impossible : err
                  "ECS_SUBNET_IDS and ECS_SECURITY_GROUP_IDS are required for ecs backend"
                ≡ ok c =
              rw (a, b) at e in
            absurd (cc impossible)
        | inr b ↦
            subst (λ (x : WorkerConfig). IsBounded x × IsConnected x)
              (ok-injective (rw (a, b) at e)) (h, (a, b))
      ]
    ]

module _ (encode : QueueJobPayload → String) (trim : String → String)
    (send : RunTask → Result RunTaskResponse) (payload : QueueJobPayload) where
  -- A dispatch finds a task definition for every tier, and names a cluster, subnets and security
  -- groups.
  pub record Dispatches (c : EcsConfig) : Type 0 where
    pub definition :
        (tier : RunnerComputeTier)
        → (arn : String) × (get_task_definition_arn encode trim send c payload tier ≡ ok arn)
    pub cluster : is_missing c.cluster_arn ≡ false
    pub subnets : 0 < length c.subnet_ids
    pub security_groups : 0 < length c.security_group_ids

  definition-ok :
      (c : EcsConfig) (tier : RunnerComputeTier)
      → is_missing (c.task_definition_arns tier) ≡ false
      → (arn : String) × (get_task_definition_arn encode trim send c payload tier ≡ ok arn)
  unfolding get_task_definition_arn
  definition-ok c tier h = found (c.task_definition_arns tier) h
    where
      found :
          (o : Option String)
          → is_missing o ≡ false
          → (arn : String) × (present o
                ("Missing ECS task definition ARN for compute tier " ++ tier_name tier)
              ≡ ok arn)
      found none h = absurd (cc h)
      found (some arn) h = rw h (arn, refl)

  unaddressed-definition :
      (c : EcsConfig) (tier : RunnerComputeTier)
      → unaddressed c ≡ false
      → is_missing (c.task_definition_arns tier) ≡ false
  unaddressed-definition c small h = ground arith
  unaddressed-definition c medium h = ground arith
  unaddressed-definition c large h = ground arith

  connected : (c : EcsConfig) → unaddressed c ≡ false → unconnected c ≡ false → Dispatches c
  connected c a b = record {
    definition = λ tier. definition-ok c tier (unaddressed-definition c tier a);
    cluster = ground arith;
    subnets = ground arith;
    security_groups = ground arith;
  }

  abbrev pub IsReady : WorkerConfig → Type 0
  IsReady c =
      (0 < c.job_ttl_seconds)
      × (1 ≤ c.queue_job_attempts)
      × (1 ≤ c.max_stdio_bytes)
      × ((c.execution_backend ≡ local) ⊎ Dispatches c.ecs)

  backend-ready :
      (b : ExecutionBackend) (c : EcsConfig)
      → (is_ecs b && unaddressed c) ≡ false
      → (is_ecs b && unconnected c) ≡ false
      → (b ≡ local) ⊎ Dispatches c
  backend-ready local c p q = inl refl
  backend-ready ecs c p q = inr (connected c p q)

  -- With a configuration that the worker accepts, the time to live of a job, its attempts and the
  -- limit of its outputs are positive, and unless the backend is local, a dispatch finds a task
  -- definition for every tier, a cluster, a subnet and a security group.
  pub load_config-IsReady :
      (to_number : String → Option ℕ) (env : WorkerEnv) (c : WorkerConfig)
      → load_config to_number env ≡ ok c
      → IsReady c
  unfolding load_config
  load_config-IsReady to_number env c e =
      let (d, p, e1) = bind-eq-ok (parse_env to_number env) checked_config c e in
      let (bounded, (a, b)) =
        checked_config-IsConnected d c (parse_env-IsBounded to_number env d p) e1 in
      (
        bounded.lives,
        bounded.attempts.0,
        bounded.stdio.0,
        backend-ready c.execution_backend c.ecs a b,
      )
