-- ===== src/Common/Cost/Monotone.antt =====
-- How estimateExecutionCostUsd of packages/common/src/index.ts depends on its input.
use cloud_code_execution_eng.Prelude.{ℕ, ◌≤◌, ◌<◌, Option, none, some, arith}
use cloud_code_execution_eng.Floats.{Floats}
use cloud_code_execution_eng.Common.Tiers.{
  RunnerComputeTier, small, medium, large, RunnerPurchaseOption, spot, on_demand,
  get_runner_tier_resources,
}
use cloud_code_execution_eng.Common.Cost.{
  CostInput, v_cpu, memory_gb, purchase_multiplier, hourly_rate, estimate_execution_cost_usd,
}

-- One tier is at most as large as another.
abbrev pub rank : RunnerComputeTier → ℕ
rank small = 0
rank medium = 1
rank large = 2

cpu_units_mono :
    (s t : RunnerComputeTier)
    → rank s ≤ rank t
    → (get_runner_tier_resources s).cpu_units ≤ (get_runner_tier_resources t).cpu_units
unfolding get_runner_tier_resources
cpu_units_mono s t h = ground arith

memory_mb_mono :
    (s t : RunnerComputeTier)
    → rank s ≤ rank t
    → (get_runner_tier_resources s).memory_mb ≤ (get_runner_tier_resources t).memory_mb
unfolding get_runner_tier_resources
memory_mb_mono s t h = ground arith

module _ (f : Floats) where
  open f use {
    F, num, decimal, add, mul, div, round8, Le, le_refl, le_trans, num_mono, zero-le-decimal,
    decimal-le, add_mono, mul_mono, zero-le-mul, zero-le-add, div_mono, zero-le-div, round8_mono,
  }

  zero-le-num : (n : ℕ) → Le (num 0) (num n)
  zero-le-num n = num_mono 0 n (omega arith)

  zero-le-ratio : (n d : ℕ) → 0 < d → Le (num 0) (div (num n) (num d))
  zero-le-ratio n d h = zero-le-div d h (zero-le-num n)

  zero-le-v_cpu : (t : Option RunnerComputeTier) (c : Option ℕ) → Le (num 0) (v_cpu f t c)
  unfolding v_cpu
  zero-le-v_cpu (some t) c = zero-le-ratio _ 1024 (omega arith)
  zero-le-v_cpu none c = zero-le-ratio _ 1000 (omega arith)

  zero-le-memory_gb : (t : Option RunnerComputeTier) (m : Option ℕ) → Le (num 0) (memory_gb f t m)
  unfolding memory_gb
  zero-le-memory_gb (some t) m = zero-le-ratio _ 1024 (omega arith)
  zero-le-memory_gb none m = zero-le-ratio _ 1024 (omega arith)

  zero-le-purchase : (p : Option RunnerPurchaseOption) → Le (num 0) (purchase_multiplier f p)
  unfolding purchase_multiplier
  zero-le-purchase (some spot) = zero-le-decimal 3 1
  zero-le-purchase (some on_demand) = zero-le-num 1
  zero-le-purchase none = zero-le-num 1

  zero-le-hourly_rate : (i : CostInput) → Le (num 0) (hourly_rate f i)
  unfolding hourly_rate
  zero-le-hourly_rate i =
      zero-le-add (zero-le-mul (zero-le-v_cpu _ _) (zero-le-decimal 4048 5))
        (zero-le-mul (zero-le-memory_gb _ _) (zero-le-decimal 4445 6))

  -- What makes one execution dearer than another: a longer run, a higher rate, a higher multiplier.
  estimate_mono :
      (i j : CostInput)
      → i.duration_ms ≤ j.duration_ms
      → Le (hourly_rate f i) (hourly_rate f j)
      → Le (purchase_multiplier f i.purchase_option) (purchase_multiplier f j.purchase_option)
      → Le (estimate_execution_cost_usd f i) (estimate_execution_cost_usd f j)
  unfolding estimate_execution_cost_usd
  estimate_mono i j longer dearer multiplied = round8_mono (
      mul_mono (zero-le-mul (zero-le-ratio _ _ (omega arith)) (zero-le-hourly_rate i))
        (mul_mono (zero-le-ratio _ _ (omega arith)) (div_mono _ (omega arith) (num_mono _ _ longer))
          (zero-le-hourly_rate i) dearer)
        (zero-le-purchase i.purchase_option) multiplied)

  purchase_at_most_one : (p : Option RunnerPurchaseOption) → Le (purchase_multiplier f p) (num 1)
  unfolding purchase_multiplier
  purchase_at_most_one (some spot) = decimal-le 3 1 1 (omega arith)
  purchase_at_most_one (some on_demand) = le_refl _
  purchase_at_most_one none = le_refl _

  -- A longer execution does not cost less, and on-demand capacity does not cost less than any
  -- other.
  pub estimate_execution_cost_usd_mono :
      (i j : CostInput)
      → i.duration_ms ≤ j.duration_ms
      → Le
          (estimate_execution_cost_usd f i)
          (estimate_execution_cost_usd f (record i { duration_ms = j.duration_ms }))
        × Le
            (estimate_execution_cost_usd f i)
            (estimate_execution_cost_usd f (record i { purchase_option = some on_demand }))
  unfolding hourly_rate purchase_multiplier
  estimate_execution_cost_usd_mono i j longer = (
    estimate_mono i (record i { duration_ms = j.duration_ms }) longer (le_refl _) (le_refl _),
    estimate_mono i (record i { purchase_option = some on_demand }) (omega arith) (le_refl _)
        (purchase_at_most_one i.purchase_option),
  )

  -- A larger tier costs at least as much for the same run.
  pub estimate_execution_cost_usd_tier_mono :
      (i : CostInput) (s t : RunnerComputeTier)
      → rank s ≤ rank t
      → Le
          (estimate_execution_cost_usd f (record i { compute_tier = some s }))
          (estimate_execution_cost_usd f (record i { compute_tier = some t }))
  unfolding hourly_rate v_cpu memory_gb
  estimate_execution_cost_usd_tier_mono i s t h =
      estimate_mono (record i { compute_tier = some s }) (record i { compute_tier = some t })
        (omega arith)
        (add_mono
          (mul_mono (zero-le-ratio _ 1024 (omega arith))
            (div_mono 1024 (omega arith) (num_mono _ _ (cpu_units_mono s t h)))
            (zero-le-decimal 4048 5) (le_refl _))
          (mul_mono (zero-le-ratio _ 1024 (omega arith))
            (div_mono 1024 (omega arith) (num_mono _ _ (memory_mb_mono s t h)))
            (zero-le-decimal 4445 6) (le_refl _)))
        (le_refl _)
