-- ===== src/Services.antt =====
-- Everything outside this repository that the services call, as one parameter, and the state that
-- it keeps for them.
use cloud_code_execution_eng.Prelude.{ℕ, ◌<◌, ◌≡◌, String, Option, if◌then◌else◌, ◌===◌}
use cloud_code_execution_eng.Redis.Counters.{Counters}
use cloud_code_execution_eng.Redis.Hashes.{Hashes}
use cloud_code_execution_eng.Redis.Streams.{Streams, SortedSets, Queues}
use cloud_code_execution_eng.Floats.{Floats}
use cloud_code_execution_eng.Common.Analysis.{ExecutionAnalysis}
use cloud_code_execution_eng.Common.Jobs.{QueueJobPayload, ExecutionResult}

-- A job that the worker gave up, as it stands in the dead letter queue.
pub record DeadLetter : Type 0 where
  pub payload : QueueJobPayload
  pub error : String
  pub attempts_made : ℕ
  pub failed_at : String

-- INCRBYFLOAT on the keys that hold a day's cost.
pub record Totals (f : Floats) : Type 1 where
  pub Db : Type 0
  pub total : String → Db → f.F
  pub incrbyfloat : String → f.F → Db → Db
  pub expire : String → ℕ → Db → Db
  pub total-incrbyfloat :
      (k j : String) (x : f.F) (db : Db)
      → total j (incrbyfloat k x db) ≡ (if k === j then f.add (total k db) x else total j db)
  pub total-expire : (k j : String) (t : ℕ) (db : Db) → 0 < t → total j (expire k t db) ≡ total j db

pub record Services : Type 1 where
  pub counters : Counters
  pub hashes : Hashes
  pub sets : SortedSets
  pub streams : Streams
  pub queue : Queues QueueJobPayload
  pub dead_letters : Queues DeadLetter
  pub floats : Floats
  pub totals : Totals floats
  -- `JSON.stringify` of a result, and `JSON.parse` with the schema of results.
  pub stringify : ExecutionResult → String
  pub parse_result : String → Option ExecutionResult
  pub to_lower_case : String → String
  -- `JSON.stringify` of an analysis, and `JSON.parse` of any text.
  pub stringify_analysis : ExecutionAnalysis → String
  pub Json : Type 0
  pub parse_json : String → Option Json
  -- `Number` of a text, if it is finite: the hashes of the jobs hold natural numbers and costs.
  pub to_number : String → Option ℕ
  pub to_float : String → Option floats.F

-- The commands that the code sends to a key of one kind never meet a key of another kind.
pub record Store (sv : Services) : Type 0 where
  pub counters : sv.counters.Db
  pub hashes : sv.hashes.Db
  pub sets : sv.sets.Db
  pub streams : sv.streams.Db
  pub queue : sv.queue.Db
  pub dead_letters : sv.dead_letters.Db
  pub totals : sv.totals.Db
