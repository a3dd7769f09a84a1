-- ===== src/Quota/Effect.antt =====
-- What the scripts of services/api/src/quota.ts do to the counters, read through `value`.
use cloud_code_execution_eng.Prelude.{
  ℕ, ◌+◌, ◌-◌, ◌≤◌, ◌<◌, ◌≡◌, ◌≢◌, String, arith, ◌===◌, if◌then◌else◌, eq_iff,
}
use cloud_code_execution_eng.Redis.Counters.{Counters, value}
use cloud_code_execution_eng.Quota.{start_expiry, reserve_script, lower}

module _ (c : Counters) where
  open c use {Db, get, incr, decr, expire, incr_reply, get-incr, get-decr, get-expire}

  pub value-incr :
      (k j : String) (db : Db)
      → value c j (incr k db).1 ≡ (if k === j then value c k db + 1 else value c j db)
  value-incr k j db = rw (get-incr k j db) (ground arith)

  -- `lower` takes one from a counter above 0, and changes no other.
  pub value-lower :
      (k j : String) (db : Db)
      → value c j (lower c k db) ≡ (if k === j then value c k db - 1 else value c j db)
  unfolding lower
  value-lower k j db = ground (arith, eq_iff k j, get-decr k j (value c k db - 1) db)

  value-start_expiry :
      (k j : String) (t n : ℕ) (db : Db)
      → 0 < t
      → value c j (start_expiry c k t n db) ≡ value c j db
  unfolding start_expiry
  value-start_expiry k j t n db h = ground (arith, get-expire k j t db)

  module _ (active_key daily_key : String) (max_active max_daily ttl : ℕ) (db : Db)
      (apart : active_key ≢ daily_key) (lives : 0 < ttl) where
    pub reserve_script-admitted :
        value c active_key db < max_active
        → value c daily_key db < max_daily
        → (reserve_script c active_key daily_key max_active max_daily ttl db).0 ≡ record {
          flag = 1;
          reason = "ok";
          active = value c active_key db + 1;
          daily = value c daily_key db + 1;
        }
    unfolding reserve_script
    reserve_script-admitted h k = ground (
      arith,
      incr_reply active_key db,
      incr_reply daily_key (incr active_key db).1,
      get-incr active_key daily_key db,
      eq_iff active_key daily_key,
    )

    pub value-reserve_script :
        (j : String)
        → value c active_key db < max_active
        → value c daily_key db < max_daily
        → value c j (reserve_script c active_key daily_key max_active max_daily ttl db).1 ≡ (
            if active_key === j
            then value c active_key db + 1
            else if daily_key === j
            then value c daily_key db + 1
            else value c j db)
    unfolding reserve_script
    value-reserve_script j h k = ground (
      arith,
      value-start_expiry daily_key j ttl (incr daily_key (incr active_key db).1).0
          (incr daily_key (incr active_key db).1).1,
      value-incr daily_key j (incr active_key db).1,
      value-incr active_key j db,
      value-incr active_key daily_key db,
      eq_iff active_key daily_key,
      eq_iff active_key j,
      eq_iff daily_key j,
    )

    pub reserve_script-full :
        max_active ≤ value c active_key db
        → reserve_script c active_key daily_key max_active max_daily ttl db ≡ (
          record {
            flag = 0;
            reason = "max_concurrent_jobs";
            active = value c active_key db;
            daily = value c daily_key db;
          },
          db,
        )
    unfolding reserve_script
    reserve_script-full h = ground arith

    pub reserve_script-spent :
        value c active_key db < max_active
        → max_daily ≤ value c daily_key db
        → reserve_script c active_key daily_key max_active max_daily ttl db ≡ (
          record {
            flag = 0;
            reason = "max_daily_jobs";
            active = value c active_key db;
            daily = value c daily_key db;
          },
          db,
        )
    unfolding reserve_script
    reserve_script-spent h k = ground arith
