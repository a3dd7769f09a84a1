-- ===== src/Witnesses/Setting.antt =====
-- Services kept in tables, which satisfy the laws of `Services`, and data for the tests.
use mathlib.Core.List.{◌++◌}
use cloud_code_execution_eng.Prelude.{
  ℕ, zero, len, suc, ◌+◌, ◌<◌, ◌≡◌, refl, String, false, Option, none, some, List, [], ◌∷◌,
  if◌then◌else◌, ◌===◌, drop, arith, eq_iff,
}
use cloud_code_execution_eng.Effect.{Result, ok}
use cloud_code_execution_eng.FixedPoint.{fixed_point}
use cloud_code_execution_eng.Common.Jobs.{
  python, JobRequest, QueueJobPayload, ExecutionResult, ResultStatus,
}
use cloud_code_execution_eng.Redis.CounterTable.{counter_table, empty_table}
use cloud_code_execution_eng.Redis.Hashes.{Hashes, Updates, written, over}
use cloud_code_execution_eng.Redis.Streams.{Streams, Queues, SortedSets, AuditEvent, except}
use cloud_code_execution_eng.Services.{Services, Store, Totals, DeadLetter}
use cloud_code_execution_eng.Tenants.{TenantPrincipal}
use cloud_code_execution_eng.Runner.Execute.{ChildRun}

abbrev pub HashTable : Type 0
HashTable = String → String → Option String

abbrev expired : ℕ → HashTable → String → HashTable
expired zero db k j f = if k === j then none else db j f
expired (suc t) db k j f = db j f

pub expired-kept : (t : ℕ) (db : HashTable) (k j f : String) → 0 < t → expired t db k j f ≡ db j f
expired-kept zero db k j f h = elim h [ ]
expired-kept (suc t) db k j f h = refl

pub hset-table :
    (k j f : String) (us : Updates) (db : HashTable)
    → (if k === j then over (written f us) (db j f) else db j f)
      ≡ (if k === j then over (written f us) (db k f) else db j f)
hset-table k j f us db = ground (arith, eq_iff k j)

abbrev pub hash_table : Hashes
hash_table = record {
  Db = HashTable;
  hget = λ k f db. db k f;
  hset = λ k us db j f. if k === j then over (written f us) (db j f) else db j f;
  expire = λ k t db. expired t db k;
  del = λ k db j f. if k === j then none else db j f;
  hget-hset = hset-table;
  hget-expire = λ k j f t db h. expired-kept t db k j f h;
  hget-del = λ k j f db. refl;
}

abbrev pub StreamTable : Type 0
StreamTable = String → List AuditEvent

pub xadd-table :
    (k j : String) (e : AuditEvent) (db : StreamTable)
    → (if k === j then db j ++ e ∷ [] else db j) ≡ (if k === j then db k ++ e ∷ [] else db j)
xadd-table k j e db = ground (arith, eq_iff k j)

abbrev pub stream_table : Streams
stream_table = record {
  Db = StreamTable;
  entries = λ k db. db k;
  xadd = λ k e db j. if k === j then db j ++ e ∷ [] else db j;
  entries-xadd = xadd-table;
}

abbrev pub queue_list : (P : Type 0) → Queues P
queue_list P = record {
  Db = List (String × P);
  waiting = λ db. db;
  add = λ id p db. db ++ (id, p) ∷ [];
  waiting-add = λ id p db. refl;
}

abbrev pub SetTable : Type 0
SetTable = String → List String

abbrev lost : ℕ → SetTable → String → SetTable
lost zero db k j = if k === j then [] else db j
lost (suc t) db k j = db j

pub lost-kept : (t : ℕ) (db : SetTable) (k j : String) → 0 < t → lost t db k j ≡ db j
lost-kept zero db k j h = elim h [ ]
lost-kept (suc t) db k j h = refl

pub at_key :
    (k j : String) (f : List String → List String) (db : SetTable)
    → (if k === j then f (db j) else db j) ≡ (if k === j then f (db k) else db j)
at_key k j f db = ground (arith, eq_iff k j)

abbrev pub set_table : SortedSets
set_table = record {
  Db = SetTable;
  members = λ k db. db k;
  zadd = λ k id db j. if k === j then except id (db j) ++ id ∷ [] else db j;
  zrem = λ k id db j. if k === j then except id (db j) else db j;
  remove_lowest = λ k n db j. if k === j then drop n (db j) else db j;
  expire = λ k t db. lost t db k;
  members-zadd = λ k j id db. at_key k j (λ ids. except id ids ++ id ∷ []) db;
  members-zrem = λ k j id db. at_key k j (except id) db;
  members-remove_lowest = λ k j n db. at_key k j (drop n) db;
  members-expire = λ k j t db h. lost-kept t db k j h;
}

abbrev TotalTable : Type 0
TotalTable = String → ℕ

abbrev cleared : ℕ → TotalTable → String → TotalTable
cleared zero db k j = if k === j then 0 else db j
cleared (suc t) db k j = db j

pub cleared-kept : (t : ℕ) (db : TotalTable) (k j : String) → 0 < t → cleared t db k j ≡ db j
cleared-kept zero db k j h = elim h [ ]
cleared-kept (suc t) db k j h = refl

pub total-table :
    (k j : String) (x : ℕ) (db : TotalTable)
    → (if k === j then db j + x else db j) ≡ (if k === j then db k + x else db j)
total-table k j x db = ground (arith, eq_iff k j)

abbrev pub total_table : Totals fixed_point
total_table = record {
  Db = TotalTable;
  total = λ k db. db k;
  incrbyfloat = λ k x db j. if k === j then db j + x else db j;
  expire = λ k t db. cleared t db k;
  total-incrbyfloat = total-table;
  total-expire = λ k j t db h. cleared-kept t db k j h;
}

abbrev pub services : Services
services = record {
  counters = counter_table;
  hashes = hash_table;
  sets = set_table;
  streams = stream_table;
  queue = queue_list QueueJobPayload;
  dead_letters = queue_list DeadLetter;
  floats = fixed_point;
  totals = total_table;
  stringify = λ r. r.stdout;
  parse_result = λ text. some (record {
    status = ResultStatus.succeeded;
    exit_code = some 0;
    signal = none;
    timed_out = false;
    stdout = text;
    stderr = "";
    duration_ms = 5;
    runner_error = none;
  });
  to_lower_case = λ s. s;
  stringify_analysis = λ a. a.summary;
  Json = String;
  parse_json = λ text. some text;
  to_number = λ text. some (len text);
  to_float = λ text. some (len text);
}

abbrev pub empty_store : Store services
empty_store = record {
  counters = empty_table;
  hashes = λ k f. none;
  sets = λ k. [];
  streams = λ k. [];
  queue = [];
  dead_letters = [];
  totals = λ k. 0;
}

abbrev pub tenant_a : TenantPrincipal
tenant_a = record {
  policy = record { tenant_id = "a"; max_concurrent_jobs = 1; max_daily_jobs = 2 };
  api_key_fingerprint = "0123456789abcdef";
}

abbrev pub today : String
today = "2026-01-31"

abbrev pub hello : JobRequest
hello = record {
  language = python;
  source_code = "print(1)";
  stdin = "";
  timeout_ms = 1000;
  memory_mb = 128;
  cpu_millicores = 256;
}

abbrev pub job : QueueJobPayload
job = record {
  job_id = "j1";
  tenant_id = "a";
  api_key_fingerprint = "0123456789abcdef";
  trace_id = some "trace-0001";
  request = hello;
  created_at = "2026-01-31T00:00:00.000Z";
}

-- A child that prints the digit 1 and ends well after 3 ms.
abbrev pub child : ChildRun
child = record {
  stdout_chunks = (49 ∷ []) ∷ [];
  stderr_chunks = [];
  code = some 0;
  signal = none;
  timed_out = false;
  elapsed = 3;
}

abbrev pub spawn_child : String → List String → Option String → ℕ → Result ChildRun
spawn_child command args stdin timeout_ms = ok child

abbrev pub hello_result : ExecutionResult
hello_result = record {
  status = ResultStatus.succeeded;
  exit_code = some 0;
  signal = none;
  timed_out = false;
  stdout = "1";
  stderr = "";
  duration_ms = 5;
  runner_error = none;
}
