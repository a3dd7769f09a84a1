-- ===== src/Witnesses/Replays.antt =====
-- The theorems on the replay of dead letters.
use cloud_code_execution_eng.Prelude.{
  zero, Bool, ◌||◌, ◌++◌, if◌then◌else◌, Bool-cases, inl, inr, ap, sym, ◌∙◌, eq_iff, none, true,
  Option, len, length, ℕ, suc, ◌-◌, ◌≡◌, refl, String, false, not, some, List, [], ◌∷◌, take, drop,
  keep, arith, ◌===◌,
}
use cloud_code_execution_eng.Effect.{Result, ok, calm, delivered, dropped}
use cloud_code_execution_eng.Common.Jobs.{QueueJobPayload}
use cloud_code_execution_eng.Redis.Streams.{KeyedQueues}
use cloud_code_execution_eng.Replay.{
  Letter, LetterState, failed, LetterQueue, Counts, ReplayStore, target_job_id, replay_from,
}
use cloud_code_execution_eng.Replay.Account.{
  IsReplayable, AreNew, requeued, IsMoved, replay_from-IsMoved, total,
}
use cloud_code_execution_eng.Replay.Settings.{
  ReplayEnv, ReplaySettings, ℤ, negsuc, require_env, load_settings,
}
use cloud_code_execution_eng.Replay.Whole.{all_letters, run, run-predicts}
use cloud_code_execution_eng.Replay.Twice.{HoldsOne, run-duplicates}
use cloud_code_execution_eng.Redis.Connection.{Url, redis_connection}
use cloud_code_execution_eng.Witnesses.Setting.{job}

abbrev LetterTable : Type 0
LetterTable = LetterState → List Letter

abbrev letter_table : LetterQueue
letter_table = record {
  Db = LetterTable;
  letters = λ state db. db state;
  get_jobs = λ state start end db. take (suc end - start) (drop start (db state));
  remove = λ id db state. keep (λ l. not (l.id === id)) (db state);
  get_jobs_lem = λ state start end db. refl;
  letters-remove = λ state id db. refl;
}

abbrev has_id : String → List (String × QueueJobPayload) → Bool
has_id id [] = false
has_id id ((j, p) ∷ jobs) = (j === id) || has_id id jobs

has_id-append :
    (id j : String) (p : QueueJobPayload) (jobs : List (String × QueueJobPayload))
    → has_id j (jobs ++ (id, p) ∷ []) ≡ ((id === j) || has_id j jobs)
has_id-append id j p [] = refl
has_id-append id j p ((k, r) ∷ jobs) = ground (arith, has_id-append id j p jobs)

has_id-add :
    (id j : String) (p : QueueJobPayload) (db : List (String × QueueJobPayload))
    → has_id j (if has_id id db then db else db ++ (id, p) ∷ []) ≡ ((id === j) || has_id j db)
has_id-add id j p db = elim (Bool-cases (has_id id db)) [
  | inl known ↦ elim (Bool-cases (id === j)) [
    | inl same ↦
        let one : has_id j db ≡ true = ap (λ x. has_id x db) (sym ((eq_iff id j).0 same)) ∙ known in
        rw (known, same) one
    | inr other ↦ rw (known, other) refl
  ]
  | inr unknown ↦ rw unknown (has_id-append id j p db)
]

abbrev main_queue : KeyedQueues QueueJobPayload
main_queue = record {
  Db = List (String × QueueJobPayload);
  waiting = λ db. db;
  has = has_id;
  add = λ id p db. if has_id id db then db else db ++ (id, p) ∷ [];
  waiting-add = λ id p db. refl;
  has-add = has_id-add;
}

abbrev letter : Letter
letter = record { id = "dlq-j1"; payload = some job }

abbrev dead : LetterTable
dead state = letter ∷ []

abbrev queues : ReplayStore main_queue letter_table
queues = record { main = []; dead = dead }

-- The clock moves on after the first letter.
abbrev stamp : ℕ → String
stamp zero = "1769860800000"
stamp (suc n) = "1769860800001"

abbrev later : ℕ → String
later n = "1769947200000"

abbrev second_letter : Letter
second_letter = record { id = "dlq-j2"; payload = some job }

second_letter-IsReplayable : IsReplayable main_queue letter_table stamp second_letter
second_letter-IsReplayable = (job, refl, refl)

-- Both letters are of one job, and get two ids.
new_ids :
    AreNew main_queue letter_table stamp queues.main
      (requeued main_queue letter_table stamp (letter ∷ second_letter ∷ []) 0)
new_ids = (refl, (refl, tt), (refl, tt, tt))

abbrev none_yet : Counts
none_yet = record { recovered = 0; skipped = 0; failures = 0 }

abbrev letter-IsReplayable : IsReplayable main_queue letter_table stamp letter
letter-IsReplayable = (job, refl, refl)

replay_from-IsMoved_example :
    (t : ReplayStore main_queue letter_table) × (replay_from main_queue letter_table false stamp
        (letter ∷ second_letter ∷ [])
        0
        none_yet
        (calm queues)
      ≡ (ok (record none_yet { recovered = 2 }), calm t))
    × IsMoved main_queue letter_table stamp (letter ∷ second_letter ∷ []) 0 queues t
replay_from-IsMoved_example =
    replay_from-IsMoved main_queue letter_table stamp (letter ∷ second_letter ∷ []) 0 none_yet
      queues (letter-IsReplayable, (second_letter-IsReplayable, tt)) new_ids

abbrev replay_env : ReplayEnv
replay_env = record {
  redis_url = some "rediss://cache:6380/1";
  job_queue_name = none;
  dlq_queue_name = some "";
  queue_job_attempts = none;
  queue_retry_backoff_ms = none;
  job_ttl_seconds = none;
  dry_run = some "1";
  dlq_batch_size = some "-3";
}

abbrev cache : Url
cache = record {
  protocol = "rediss:";
  hostname = "cache";
  port = "6380";
  username = "";
  password = "";
  pathname = "/1";
}

abbrev replay_settings : ReplaySettings
replay_settings = record {
  connection = record {
    host = "cache";
    port = some 4;
    username = none;
    password = none;
    db = some 1;
    tls = true;
  };
  job_queue_name = "code-jobs";
  dlq_queue_name = "code-jobs-dlq";
  attempts = negsuc 2;
  backoff_ms = negsuc 2;
  ttl_seconds = negsuc 2;
  dry_run = true;
  batch_size = 1;
}

-- A parser that reads every number as -3, and a `Number` that counts.
abbrev parse_url : String → Result Url
parse_url text = ok cache

abbrev parse_int : String → Option ℤ
parse_int text = some (negsuc 2)

abbrev to_number : String → Option ℕ
to_number text = some (len text)

settings_load : load_settings parse_url to_number parse_int replay_env ≡ ok replay_settings
unfolding load_settings require_env redis_connection
settings_load = refl

run-predicts_example :
    (c : Counts) × (t : ReplayStore main_queue letter_table) × (run main_queue letter_table stamp 2
        (record replay_settings { dry_run = true })
        (calm queues)
      ≡ some (ok c, calm queues))
    × (run main_queue letter_table stamp 2
          (record replay_settings { dry_run = false })
          (calm queues)
        ≡ some (ok c, calm t))
    × (total c ≡ length (all_letters main_queue letter_table stamp dead))
run-predicts_example =
    run-predicts main_queue letter_table stamp parse_url to_number parse_int replay_env
      replay_settings 2 queues settings_load (λ state. omega arith)

abbrev one_dead : LetterTable
one_dead failed = letter ∷ []
one_dead _ = []

abbrev one_letter : ReplayStore main_queue letter_table
one_letter = record { main = []; dead = one_dead }

one_dead-HoldsOne : HoldsOne main_queue letter_table letter one_dead
one_dead-HoldsOne = record {
  in_failed = refl;
  in_waiting = refl;
  in_delayed = refl;
  in_paused = refl;
}

abbrev wet_settings : ReplaySettings
wet_settings = record replay_settings { dry_run = false }

run-duplicates_example :
    (t : ReplayStore main_queue letter_table) × (u : ReplayStore main_queue letter_table) × (run
        main_queue letter_table stamp 2 wet_settings
        (record { net = delivered ∷ dropped "ECONNRESET" ∷ []; store = one_letter })
      ≡ some (ok (record { recovered = 0; skipped = 0; failures = 1 }), calm t))
    × (run main_queue letter_table later 2 wet_settings (calm t)
        ≡ some (ok (record { recovered = 1; skipped = 0; failures = 0 }), calm u))
    × (main_queue.waiting u.main
        ≡ []
          ++ ((target_job_id main_queue letter_table false stamp job 0, job)
              ∷ (target_job_id main_queue letter_table false later job 0, job)
              ∷ []))
run-duplicates_example =
    run-duplicates main_queue letter_table stamp later wet_settings 2 letter job one_letter
      "ECONNRESET" refl (omega arith) (omega arith) one_dead-HoldsOne refl refl refl refl refl
