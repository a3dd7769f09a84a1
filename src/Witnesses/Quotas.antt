-- ===== src/Witnesses/Quotas.antt =====
-- The quota's and the rate limit's theorems for one tenant with one slot.
use cloud_code_execution_eng.Prelude.{ℕ, ◌-◌, ◌≡◌, refl, String, min, arith}
use cloud_code_execution_eng.Redis.Counters.{value}
use cloud_code_execution_eng.Redis.CounterTable.{counter_table, empty_table, Table}
use cloud_code_execution_eng.Common.Keys.Distinct.{IsDateKey}
use cloud_code_execution_eng.Quota.{reserve_quota, decrement_active_quota}
use cloud_code_execution_eng.Quota.Ledger.{admit, ledger, reserve_quota-refines}
use cloud_code_execution_eng.Quota.Traces.{
  Reach, here, next, reserve, release, IsWithin, Reach-IsWithin,
}
use cloud_code_execution_eng.Api.RateLimit.Window.{admitted, admitted-min}
use cloud_code_execution_eng.Witnesses.Setting.{tenant_a, today}

today-IsDateKey : IsDateKey today
unfolding IsDateKey
today-IsDateKey = refl

reserve_quota-refines_example :
    let (reply, db') = reserve_quota counter_table tenant_a 100 today empty_table in
    let (promised, l) = admit tenant_a today (ledger counter_table "a" today empty_table) in
    (reply ≡ promised) × (ledger counter_table "a" today db' ≡ l)
reserve_quota-refines_example =
    reserve_quota-refines counter_table tenant_a 100 today empty_table today-IsDateKey (omega arith)

abbrev one_each : String → ℕ
one_each t = 1

empty-IsWithin : IsWithin counter_table one_each empty_table
empty-IsWithin t = omega arith

abbrev reserved : Table
reserved = (reserve_quota counter_table tenant_a 100 today empty_table).1

two_steps :
    Reach counter_table one_each empty_table (decrement_active_quota counter_table "a" reserved)
two_steps =
    next
      (next here
        (reserve tenant_a 100 today empty_table (omega arith) today-IsDateKey (omega arith)))
      (release "a" reserved)

Reach-IsWithin_example :
    IsWithin counter_table one_each (decrement_active_quota counter_table "a" reserved)
Reach-IsWithin_example = Reach-IsWithin counter_table one_each empty-IsWithin two_steps

admitted-min_example :
    admitted counter_table "k" 3 60 1000 5 empty_table
    ≡ min 5 (3 - value counter_table "k" empty_table)
admitted-min_example = admitted-min counter_table "k" 3 60 1000 5 empty_table (omega arith)
