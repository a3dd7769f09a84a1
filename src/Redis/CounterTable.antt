-- ===== src/Redis/CounterTable.antt =====
-- A table of counters with their times to live, which satisfies the laws of `Counters`.
use cloud_code_execution_eng.Prelude.{
  ℕ, zero, suc, ◌+◌, ◌-◌, ◌<◌, ◌≡◌, refl, String, Option, none, some, if◌then◌else◌, ◌===◌, or_zero,
  arith, eq_iff, eq_refl,
}
use cloud_code_execution_eng.Redis.Counters.{Counters}

pub record Entry : Type 0 where
  pub count : ℕ
  pub expires : Option ℕ

abbrev pub Table : Type 0
Table = String → Option Entry

abbrev pub count_of : Option Entry → Option ℕ
count_of none = none
count_of (some e) = some e.count

abbrev pub expires_of : Option Entry → Option ℕ
expires_of none = none
expires_of (some e) = e.expires

abbrev pub put : String → ℕ → Table → Table
put k n t j = if k === j then some (record { count = n; expires = expires_of (t k) }) else t j

-- A time to live of 0 deletes the key.
abbrev pub timed : ℕ → Option Entry → Option Entry
timed zero e = none
timed (suc s) none = none
timed (suc s) (some e) = some (record e { expires = some (suc s) })

abbrev pub expire_key : String → ℕ → Table → Table
expire_key k s t j = if k === j then timed s (t k) else t j

pub get-put :
    (k j : String) (n : ℕ) (t : Table)
    → count_of (put k n t j) ≡ (if k === j then some n else count_of (t j))
get-put k j n t = ground arith

pub ttl-put : (k j : String) (n : ℕ) (t : Table) → expires_of (put k n t j) ≡ expires_of (t j)
ttl-put k j n t = ground (arith, eq_iff k j)

get-timed : (s : ℕ) (e : Option Entry) → 0 < s → count_of (timed s e) ≡ count_of e
get-timed zero e h = elim h [ ]
get-timed (suc s) none h = refl
get-timed (suc s) (some e) h = refl

pub get-expire_key :
    (k j : String) (s : ℕ) (t : Table) → 0 < s → count_of (expire_key k s t j) ≡ count_of (t j)
get-expire_key k j s t h = ground (arith, eq_iff k j, get-timed s (t k))

ttl-timed :
    (s n : ℕ) (e : Option Entry) → 0 < s → count_of e ≡ some n → expires_of (timed s e) ≡ some s
ttl-timed zero n e h p = elim h [ ]
ttl-timed (suc s) n none h p = ground arith
ttl-timed (suc s) n (some e) h p = refl

pub ttl-expire_key :
    (k : String) (s n : ℕ) (t : Table)
    → 0 < s
    → count_of (t k) ≡ some n
    → expires_of (expire_key k s t k) ≡ some s
ttl-expire_key k s n t h p = ground (arith, eq_refl k, ttl-timed s n (t k))

pub get-lowered :
    (k j : String) (n : ℕ) (t : Table)
    → count_of (t k) ≡ some (suc n)
    → count_of (put k (or_zero (count_of (t k)) - 1) t j)
      ≡ (if k === j then some n else count_of (t j))
get-lowered k j n t h = ground (arith, get-put k j (or_zero (count_of (t k)) - 1) t)

abbrev pub counter_table : Counters
counter_table = record {
  Db = Table;
  get = λ k t. count_of (t k);
  incr = λ k t. (or_zero (count_of (t k)) + 1, put k (or_zero (count_of (t k)) + 1) t);
  decr = λ k t. put k (or_zero (count_of (t k)) - 1) t;
  incrby = λ k n t. put k (or_zero (count_of (t k)) + n) t;
  expire = expire_key;
  ttl = λ k t. expires_of (t k);
  incr_reply = λ k t. refl;
  get-incr = λ k j t. get-put k j (or_zero (count_of (t k)) + 1) t;
  ttl-incr = λ k j t. ttl-put k j (or_zero (count_of (t k)) + 1) t;
  get-decr = get-lowered;
  get-incrby = λ k j n t. get-put k j (or_zero (count_of (t k)) + n) t;
  get-expire = get-expire_key;
  ttl-expire = ttl-expire_key;
}

abbrev pub empty_table : Table
empty_table k = none
