-- ===== src/Common/Tiers.antt =====
-- packages/common/src/index.ts: the sizes of runner tasks and the purchase options.
use cloud_code_execution_eng.Prelude.{ℕ, ◌≤◌, String, Option, some, leb, if◌then◌else◌, arith}

pub data RunnerComputeTier : Type 0 where
  small medium large : RunnerComputeTier

pub data RunnerPurchaseOption : Type 0 where
  spot on_demand : RunnerPurchaseOption

abbrev pub tier_name : RunnerComputeTier → String
tier_name small = "small"
tier_name medium = "medium"
tier_name large = "large"

abbrev pub purchase_name : RunnerPurchaseOption → String
purchase_name spot = "spot"
purchase_name on_demand = "on-demand"

pub record TierResources : Type 0 where
  pub cpu_units : ℕ
  pub memory_mb : ℕ

unfoldable pub get_runner_tier_resources : RunnerComputeTier → TierResources
get_runner_tier_resources small = record { cpu_units = 256; memory_mb = 512 }
get_runner_tier_resources medium = record { cpu_units = 512; memory_mb = 1024 }
get_runner_tier_resources large = record { cpu_units = 1024; memory_mb = 2048 }

unfoldable pub select_runner_compute_tier : ℕ → RunnerComputeTier
select_runner_compute_tier cpu_millicores =
    if leb cpu_millicores 256 then small else if leb cpu_millicores 512 then medium else large

unfoldable pub resolve_cost_model_version :
    Option RunnerComputeTier → Option RunnerPurchaseOption → String
resolve_cost_model_version (some tier) (some purchase) = "fargate-tiered-v2"
resolve_cost_model_version _ _ = "fargate-v1"

-- For requests within the schema the selected tier has the CPU units and the memory asked for, and
-- no smaller tier has the CPU units.
pub select_runner_compute_tier_fits :
    (cpu memory : ℕ)
    → cpu ≤ 1024
    → memory ≤ 512
    → (cpu ≤ (get_runner_tier_resources (select_runner_compute_tier cpu)).cpu_units)
      × (memory ≤ (get_runner_tier_resources (select_runner_compute_tier cpu)).memory_mb)
      × ((tier : RunnerComputeTier)
          → cpu ≤ (get_runner_tier_resources tier).cpu_units
          → (get_runner_tier_resources (select_runner_compute_tier cpu)).cpu_units
            ≤ (get_runner_tier_resources tier).cpu_units)
unfolding get_runner_tier_resources select_runner_compute_tier
select_runner_compute_tier_fits cpu memory h k = (ground arith, ground arith, smallest)
  where
    smallest :
        (tier : RunnerComputeTier)
        → cpu ≤ (get_runner_tier_resources tier).cpu_units
        → (get_runner_tier_resources (select_runner_compute_tier cpu)).cpu_units
          ≤ (get_runner_tier_resources tier).cpu_units
    smallest small l = ground arith
    smallest medium l = ground arith
    smallest large l = ground arith
