-- ===== src/Common/Cost.antt =====
-- packages/common/src/index.ts: estimateExecutionCostUsd.
pub mod Monotone
use cloud_code_execution_eng.Prelude.{
  ℕ, zero, suc, ◌≤◌, ◌<◌, ◌*◌, ◌≡◌, refl, Option, none, some, max, or_else, arith,
}
use cloud_code_execution_eng.Floats.{Floats}
use cloud_code_execution_eng.Common.Tiers.{
  RunnerComputeTier, small, medium, large, RunnerPurchaseOption, spot, on_demand, TierResources,
  get_runner_tier_resources,
}

pub record CostInput : Type 0 where
  pub duration_ms : ℕ
  pub cpu_millicores : Option ℕ
  pub memory_mb : Option ℕ
  pub compute_tier : Option RunnerComputeTier
  pub purchase_option : Option RunnerPurchaseOption

module _ (f : Floats) where
  open f use {F, num, decimal, add, mul, div, round8, Le}

  v_cpu : Option RunnerComputeTier → Option ℕ → F
  v_cpu (some tier) cpu = div (num (get_runner_tier_resources tier).cpu_units) (num 1024)
  v_cpu none cpu = div (num (max (or_else cpu 128) 128)) (num 1000)

  memory_gb : Option RunnerComputeTier → Option ℕ → F
  memory_gb (some tier) memory = div (num (get_runner_tier_resources tier).memory_mb) (num 1024)
  memory_gb none memory = div (num (max (or_else memory 64) 64)) (num 1024)

  purchase_multiplier : Option RunnerPurchaseOption → F
  purchase_multiplier (some spot) = decimal 3 1
  purchase_multiplier _ = num 1

  hourly_rate : CostInput → F
  hourly_rate input =
      add (mul (v_cpu input.compute_tier input.cpu_millicores) (decimal 4048 5))
        (mul (memory_gb input.compute_tier input.memory_mb) (decimal 4445 6))

  unfoldable pub estimate_execution_cost_usd : CostInput → F
  unfolding v_cpu memory_gb purchase_multiplier hourly_rate
  estimate_execution_cost_usd input = round8 (
      mul (mul (div (num input.duration_ms) (num (1000 * 60 * 60))) (hourly_rate input))
        (purchase_multiplier input.purchase_option))
