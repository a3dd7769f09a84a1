-- ===== src/Api/RateLimit/Window.antt =====
-- How many requests evaluateRateLimit of services/api/src/index.ts lets through in one window.
use cloud_code_execution_eng.Prelude.{
  ℕ, zero, suc, ◌+◌, ◌-◌, ◌<◌, ◌≡◌, String, Bool, true, false, min, leb, arith, eq_refl,
}
use cloud_code_execution_eng.Redis.Counters.{Counters, value}
use cloud_code_execution_eng.Api.RateLimit.{begin_window, evaluate_limit}

module _ (c : Counters) where
  open c use {Db, incr, expire, incr_reply, get-incr, get-expire}

  value-evaluate_limit :
      (key : String) (limit window now : ℕ) (db : Db)
      → 0 < window
      → value c key (evaluate_limit c key limit window now db).1 ≡ value c key db + 1
  unfolding evaluate_limit begin_window
  value-evaluate_limit key limit window now db h = ground (
    arith,
    incr_reply key db,
    get-incr key key db,
    eq_refl key,
    get-expire key key window (incr key db).1,
  )

  used-evaluate_limit :
      (key : String) (limit window now : ℕ) (db : Db)
      → (evaluate_limit c key limit window now db).0.used ≡ value c key db + 1
  unfolding evaluate_limit begin_window
  used-evaluate_limit key limit window now db = ground (arith, incr_reply key db)

  allowed-evaluate_limit :
      (key : String) (limit window now : ℕ) (db : Db)
      → (evaluate_limit c key limit window now db).0.allowed ≡ leb (value c key db + 1) limit
  unfolding evaluate_limit begin_window
  allowed-evaluate_limit key limit window now db = ground (arith, incr_reply key db)

  one_if : Bool → ℕ
  one_if true = 1
  one_if false = 0

  -- How many of `n` requests of one window are let through, one after the other.
  unfoldable pub admitted : String → ℕ → ℕ → ℕ → ℕ → Db → ℕ
  unfolding one_if
  admitted key limit window now zero db = 0
  admitted key limit window now (suc n) db =
      let r = evaluate_limit c key limit window now db in
      one_if r.0.allowed + admitted key limit window now n r.1

  -- Of n requests in one window of positive length, evaluated one after the other, as many are let
  -- through as the limit has left.
  pub admitted-min :
      (key : String) (limit window now n : ℕ) (db : Db)
      → 0 < window
      → admitted key limit window now n db ≡ min n (limit - value c key db)
  unfolding admitted
  admitted-min key limit window now zero db h = ground arith
  admitted-min key limit window now (suc n) db h =
      let rest =
        admitted-min key limit window now n (evaluate_limit c key limit window now db).1 h in
      let raised = value-evaluate_limit key limit window now db h in
      let test = allowed-evaluate_limit key limit window now db in ground (arith)
