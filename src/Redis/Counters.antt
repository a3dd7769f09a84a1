-- ===== src/Redis/Counters.antt =====
-- Redis counters: GET, INCR, DECR, INCRBY, EXPIRE and TTL on keys that hold a number, as the scripts
-- of services/api/src/quota.ts and services/api/src/index.ts use them. The laws are the documented
-- behaviour of the commands. Redis runs a script, and each command, without interleaving.
use cloud_code_execution_eng.Prelude.{
  ℕ, suc, ◌+◌, ◌<◌, ◌≡◌, String, Option, some, if◌then◌else◌, ◌===◌, or_zero,
}

pub record Counters : Type 1 where
  pub Db : Type 0
  -- `tonumber(redis.call("GET", key))`.
  pub get : String → Db → Option ℕ
  -- The reply of INCR is the new value.
  pub incr : String → Db → ℕ × Db
  pub decr : String → Db → Db
  pub incrby : String → ℕ → Db → Db
  pub expire : String → ℕ → Db → Db
  -- `none` is a negative reply: no such key, or one that does not expire.
  pub ttl : String → Db → Option ℕ
  pub incr_reply : (k : String) (db : Db) → (incr k db).0 ≡ or_zero (get k db) + 1
  pub get-incr :
      (k j : String) (db : Db)
      → get j (incr k db).1 ≡ (if k === j then some (or_zero (get k db) + 1) else get j db)
  pub ttl-incr : (k j : String) (db : Db) → ttl j (incr k db).1 ≡ ttl j db
  -- DECR is only ever sent to a counter above 0.
  pub get-decr :
      (k j : String) (n : ℕ) (db : Db)
      → get k db ≡ some (suc n)
      → get j (decr k db) ≡ (if k === j then some n else get j db)
  pub get-incrby :
      (k j : String) (n : ℕ) (db : Db)
      → get j (incrby k n db) ≡ (if k === j then some (or_zero (get k db) + n) else get j db)
  pub get-expire : (k j : String) (t : ℕ) (db : Db) → 0 < t → get j (expire k t db) ≡ get j db
  pub ttl-expire :
      (k : String) (t n : ℕ) (db : Db) → 0 < t → get k db ≡ some n → ttl k (expire k t db) ≡ some t

-- The value that a script reads, a missing key counting as 0.
abbrev pub value : (c : Counters) → String → c.Db → ℕ
value c k db = or_zero (c.get k db)
