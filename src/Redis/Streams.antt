-- ===== src/Redis/Streams.antt =====
-- The audit stream, in which XADD appends, the job queues of BullMQ, and the history of a tenant,
-- which is a sorted set with the newest job last.
use cloud_code_execution_eng.Prelude.{
  ℕ, ◌<◌, ◌≡◌, String, Bool, Option, List, [], ◌∷◌, ◌++◌, if◌then◌else◌, ◌===◌, not, ◌||◌, keep,
  drop,
}

-- A value of a JSON object that the code logs. Its numbers are natural, but for the -1 that stands
-- for a missing exit code, and the costs, which are texts here.
pub data MetaValue : Type 0 where
  text : String → MetaValue
  number : ℕ → MetaValue
  flag : Bool → MetaValue
  minus_one null : MetaValue

-- The stream adds the time itself.
pub record AuditEvent : Type 0 where
  pub actor : String
  pub action : String
  pub tenant_id : Option String
  pub job_id : Option String
  pub metadata : List (String × MetaValue)

pub record Streams : Type 1 where
  pub Db : Type 0
  pub entries : String → Db → List AuditEvent
  pub xadd : String → AuditEvent → Db → Db
  pub entries-xadd :
      (k j : String) (e : AuditEvent) (db : Db)
      → entries j (xadd k e db) ≡ (if k === j then entries k db ++ e ∷ [] else entries j db)

-- A queue of jobs with payloads of type `P`, for callers that draw each id at random or give each
-- only once.
pub record Queues (P : Type 0) : Type 1 where
  pub Db : Type 0
  pub waiting : Db → List (String × P)
  pub add : String → P → Db → Db
  -- BullMQ appends a job whose id is new.
  pub waiting-add :
      (id : String) (p : P) (db : Db) → waiting (add id p db) ≡ waiting db ++ (id, p) ∷ []

-- A queue whose callers may give an id again. `has` says whether the queue knows a job with this id,
-- in whatever state; BullMQ then leaves the queue as it is.
pub record KeyedQueues (P : Type 0) : Type 1 where
  pub Db : Type 0
  pub waiting : Db → List (String × P)
  pub has : String → Db → Bool
  pub add : String → P → Db → Db
  pub waiting-add :
      (id : String) (p : P) (db : Db)
      → waiting (add id p db) ≡ (if has id db then waiting db else waiting db ++ (id, p) ∷ [])
  pub has-add : (id j : String) (p : P) (db : Db) → has j (add id p db) ≡ ((id === j) || has j db)

abbrev pub except : String → List String → List String
except id = keep λ other. not (other === id)

pub record SortedSets : Type 1 where
  pub Db : Type 0
  -- ZRANGE key 0 -1: the members by rising score.
  pub members : String → Db → List String
  -- ZADD key <now> id: the clock does not run back, so the newest member is the last.
  pub zadd : String → String → Db → Db
  pub zrem : String → String → Db → Db
  -- ZREMRANGEBYRANK key 0 (n - 1): the n lowest.
  pub remove_lowest : String → ℕ → Db → Db
  pub expire : String → ℕ → Db → Db
  pub members-zadd :
      (k j id : String) (db : Db)
      → members j (zadd k id db)
        ≡ (if k === j then except id (members k db) ++ id ∷ [] else members j db)
  pub members-zrem :
      (k j id : String) (db : Db)
      → members j (zrem k id db) ≡ (if k === j then except id (members k db) else members j db)
  pub members-remove_lowest :
      (k j : String) (n : ℕ) (db : Db)
      → members j (remove_lowest k n db) ≡ (if k === j then drop n (members k db) else members j db)
  pub members-expire :
      (k j : String) (t : ℕ) (db : Db) → 0 < t → members j (expire k t db) ≡ members j db
