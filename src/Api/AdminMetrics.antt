-- ===== src/Api/AdminMetrics.antt =====
-- services/api/src/index.ts: getClusterName and app.get("/v1/admin/metrics"), for an admin that is
-- let in. What the clients of ECS and of its scaling answer is given, as are the counts of the two
-- queues. The numbers of a policy are naturals here.
pub mod Chosen
use Prim.Native.String.{◌++◌}
use Prim.Native.Char.{code}
use cloud_code_execution_eng.Prelude.{
  ℕ, ◌+◌, ◌≡◌, refl, ap, ◌∙◌, Option-cases, ◌⊎◌, String, Bool, true, false, ◌||◌, not, Option, none,
  some, List, [], ◌∷◌, map, ◌==◌, ◌===◌, if◌then◌else◌, or_else, or_zero, Bool-cases, inl, inr,
  arith, All,
}
use cloud_code_execution_eng.Effect.{Result, ok, err}
use cloud_code_execution_eng.Effect.Fallible.{◌>>=◌}
use cloud_code_execution_eng.Common.Env.{is_missing}
use cloud_code_execution_eng.Tenants.Registry.{
  otherwise-none, lookup, set_all, otherwise, last_entry, lookup-set_all,
}
use cloud_code_execution_eng.Api.Observability.{JobCounts, pending_jobs}

abbrev has_char : ℕ → String → Bool
has_char x String.[] = false
has_char x (String.◌∷◌ c s) = code c == x || has_char x s

-- What stands behind the last `/`, or the whole text.
abbrev last_part : String → String
last_part String.[] = ""
last_part (String.◌∷◌ c s) =
    let rest = last_part s in
    if has_char b'/' s then rest else if code c == b'/' then s else String.◌∷◌ c s

unfoldable pub get_cluster_name : String → String
get_cluster_name name =
    if not (has_char b':' name)
    then name
    else if last_part name === ""
    then name
    else last_part name

-- The resource whose scaling is asked for; without a cluster there is none.
unfoldable pub resource_id : Option String → String → Option String
resource_id none service = none
resource_id (some arn) service =
    if arn === "" then none else some ("service/" ++ (get_cluster_name arn ++ ("/" ++ service)))

pub record Policy : Type 0 where
  pub policy_type : Option String
  pub policy_name : Option String
  pub target_value : Option ℕ

pub record ScalableTarget : Type 0 where
  pub min_capacity : Option ℕ
  pub max_capacity : Option ℕ

pub record Activity : Type 0 where
  pub status_code : Option String
  pub description : Option String
  pub cause : Option String
  pub start_time : Option String

pub record AutoScaling : Type 0 where
  pub target_value : Option ℕ
  pub policy_name : Option String
  pub min_capacity : Option ℕ
  pub max_capacity : Option ℕ
  pub activities : List Activity
  pub last_activity : Option Activity

-- Nothing was asked, or the answers, or an error.
pub data AutoScalingSnapshot : Type 0 where
  no_resource : AutoScalingSnapshot
  described : AutoScaling → AutoScalingSnapshot
  autoscaling_failed : AutoScalingSnapshot

abbrev is_text : String → Option String → Bool
is_text t none = false
is_text t (some u) = u === t

abbrev pub is_tracking : Policy → Bool
is_tracking p = is_text "TargetTrackingScaling" p.policy_type

abbrev first {ℓ} : {A : Type ℓ} → List A → Option A
first [] = none
first (x ∷ xs) = some x

abbrev pub first_tracking : List Policy → Option Policy
first_tracking [] = none
first_tracking (p ∷ ps) = if is_tracking p then some p else first_tracking ps

-- `find(…) ?? policies[0]`.
unfoldable pub find_policy : List Policy → Option Policy
find_policy policies = otherwise (first_tracking policies) (first policies)

abbrev of {ℓ κ} : {A : Type ℓ} {B : Type κ} → (A → Option B) → Option A → Option B
of f none = none
of f (some x) = f x

abbrev pub scaling_of :
    Option (List Policy) → Option (List ScalableTarget) → Option (List Activity) → AutoScaling
scaling_of policies targets activities =
    let policy = find_policy (or_else policies []) in
    let target = first (or_else targets []) in
    let recent = or_else activities [] in
    record {
      target_value = of (λ (p : Policy). p.target_value) policy;
      policy_name = of (λ (p : Policy). p.policy_name) policy;
      min_capacity = of (λ (t : ScalableTarget). t.min_capacity) target;
      max_capacity = of (λ (t : ScalableTarget). t.max_capacity) target;
      activities = recent;
      last_activity = first recent;
    }

-- The `catch` of the three requests, which are sent together.
abbrev or_failed : Result AutoScaling → AutoScalingSnapshot
or_failed (ok scaling) = described scaling
or_failed (err message) = autoscaling_failed

unfoldable pub describe_scaling :
    Option String
    → Result (Option (List Policy))
    → Result (Option (List ScalableTarget))
    → Result (Option (List Activity))
    → AutoScalingSnapshot
describe_scaling none policies targets activities = no_resource
describe_scaling (some resource) policies targets activities =
    or_failed do ps ← policies; ts ← targets; acts ← activities; ok (scaling_of ps ts acts)

-- A service as ECS describes it.
pub record EcsService : Type 0 where
  pub service_name : Option String
  pub desired_count : Option ℕ
  pub running_count : Option ℕ
  pub pending_count : Option ℕ
  pub task_definition : Option String

pub record ServiceView : Type 0 where
  pub service_name : Option String
  pub desired : ℕ
  pub running : ℕ
  pub pending : ℕ
  pub task_definition : Option String

pub data EcsView : Type 0 where
  no_cluster : EcsView
  services : Option ServiceView → Option ServiceView → EcsView
  ecs_failed : EcsView

abbrev pub view_of : Option EcsService → Option ServiceView
view_of none = none
view_of (some s) = some (record {
  service_name = s.service_name;
  desired = or_zero s.desired_count;
  running = or_zero s.running_count;
  pending = or_zero s.pending_count;
  task_definition = s.task_definition;
})

abbrev pub by_name : Option (List EcsService) → List (String × EcsService)
by_name found = map (λ (s : EcsService). (or_else s.service_name "unknown", s)) (or_else found [])

unfoldable pub describe_ecs :
    Option String → String → String → Result (Option (List EcsService)) → EcsView
describe_ecs cluster worker api answer = if is_missing cluster then no_cluster else seen answer
  where
    seen : Result (Option (List EcsService)) → EcsView
    seen (err message) = ecs_failed
    seen (ok found) =
        let m = set_all (by_name found) [] in
        services (view_of (lookup worker m)) (view_of (lookup api m))

pub record AdminMetrics : Type 0 where
  pub queue_pending : ℕ
  pub dlq_pending : ℕ
  pub autoscaling : AutoScalingSnapshot
  pub ecs : EcsView

unfoldable pub get_admin_metrics :
    JobCounts → JobCounts → AutoScalingSnapshot → EcsView → AdminMetrics
get_admin_metrics counts dlq_counts scaling ecs = record {
  queue_pending = pending_jobs counts;
  dlq_pending =
      or_zero dlq_counts.waiting
      + or_zero dlq_counts.active
      + or_zero dlq_counts.delayed
      + or_zero dlq_counts.paused;
  autoscaling = scaling;
  ecs = ecs;
}
