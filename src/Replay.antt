-- ===== src/Replay.antt =====
-- scripts/replay-dlq.mjs: fetchJobs and run. The two queues of BullMQ are parameters; reading the
-- environment and printing the table of counts are left out.
pub mod Settings
pub mod Fetch
pub mod Account
pub mod Whole
pub mod Twice
use Prim.Native.String.{◌++◌}
use mathlib.Core.List.{◌++◌ as join}
use cloud_code_execution_eng.Prelude.{
  ℕ, zero, suc, ◌+◌, ◌-◌, ◌≡◌, String, Bool, true, false, not, Option, none, some, List, [], ◌∷◌,
  ltb, ◌==◌, ◌===◌, if◌then◌else◌, length, take, drop, keep, max,
}
use cloud_code_execution_eng.Effect.{Exec, Result, pure, command, try_catch, ◌>>=◌, ◌>>◌}
use cloud_code_execution_eng.Common.Jobs.{QueueJobPayload}
use cloud_code_execution_eng.Redis.Streams.{KeyedQueues}

-- A dead letter: its id in the queue, and the job's payload, if it has one.
pub record Letter : Type 0 where
  pub id : String
  pub payload : Option QueueJobPayload

pub data LetterState : Type 0 where
  failed waiting delayed paused : LetterState

abbrev pub states : List LetterState
states = failed ∷ waiting ∷ delayed ∷ paused ∷ []

-- The dead letter queue. `getJobs([state], start, end, true)` gives the letters at the positions
-- from `start` to `end`, the oldest first.
pub record LetterQueue : Type 1 where
  pub Db : Type 0
  pub letters : LetterState → Db → List Letter
  pub get_jobs : LetterState → ℕ → ℕ → Db → List Letter
  pub remove : String → Db → Db
  pub get_jobs_lem :
      (state : LetterState) (start end : ℕ) (db : Db)
      → get_jobs state start end db ≡ take (suc end - start) (drop start (letters state db))
  pub letters-remove :
      (state : LetterState) (id : String) (db : Db)
      → letters state (remove id db) ≡ keep (λ l. not (l.id === id)) (letters state db)

pub record Counts : Type 0 where
  pub recovered : ℕ
  pub skipped : ℕ
  pub failures : ℕ

module _ (q : KeyedQueues QueueJobPayload) (dlq : LetterQueue) where
  pub record ReplayStore : Type 0 where
    pub main : q.Db
    pub dead : dlq.Db

  -- The loop over the batches of one state; none if the fuel does not last.
  unfoldable pub fetch_state : ℕ → ℕ → LetterState → ℕ → dlq.Db → Option (List Letter)
  fetch_state batch_size zero state start db = none
  fetch_state batch_size (suc fuel) state start db =
      let batch = dlq.get_jobs state start (start + batch_size - 1) db in
      let rest = fetch_state batch_size fuel state (start + batch_size) db in
      if length batch == 0
      then some []
      else if ltb (length batch) batch_size
      then some batch
      else onto batch rest
    where
      onto : List Letter → Option (List Letter) → Option (List Letter)
      onto batch none = none
      onto batch (some rest) = some (join batch rest)

  abbrev both : Option (List Letter) → Option (List Letter) → Option (List Letter)
  both none _ = none
  both (some xs) none = none
  both (some xs) (some ys) = some (join xs ys)

  fetch_states : ℕ → ℕ → List LetterState → dlq.Db → Option (List Letter)
  fetch_states batch_size fuel [] db = some []
  fetch_states batch_size fuel (state ∷ more) db =
      both (fetch_state batch_size fuel state 0 db) (fetch_states batch_size fuel more db)

  unfoldable pub fetch_jobs : ℕ → ℕ → dlq.Db → Option (List Letter)
  unfolding fetch_states
  fetch_jobs batch_size fuel db = fetch_states batch_size fuel states db

  module _ (dry_run : Bool) (stamp : ℕ → String) where
    abbrev recovered_one : Counts → Counts
    recovered_one c = record c { recovered = c.recovered + 1 }

    abbrev skipped_one : Counts → Counts
    skipped_one c = record c { skipped = c.skipped + 1 }

    abbrev failed_one : Counts → Counts
    failed_one c = record c { failures = c.failures + 1 }

    -- `Date.now()` is read once for each letter, by its number.
    abbrev pub target_job_id : QueueJobPayload → ℕ → String
    target_job_id payload n = payload.job_id ++ ("-replay-" ++ stamp n)

    abbrev pub move : String → QueueJobPayload → ℕ → Counts → Exec ReplayStore Counts
    move id payload n c =
        try_catch
          (do
            command (λ s. record s { main = q.add (target_job_id payload n) payload s.main })
            command (λ s. record s { dead = dlq.remove id s.dead })
            pure (recovered_one c))
          (λ message. pure (failed_one c))

    abbrev replay_payload : String → Option QueueJobPayload → ℕ → Counts → Exec ReplayStore Counts
    replay_payload id none n c = pure (skipped_one c)
    replay_payload id (some payload) n c =
        if payload.job_id === ""
        then pure (skipped_one c)
        else if dry_run
        then pure (recovered_one c)
        else move id payload n c

    unfoldable pub replay_letter : Letter → ℕ → Counts → Exec ReplayStore Counts
    replay_letter l n c = replay_payload l.id l.payload n c

    -- The loop over the letters.
    unfoldable pub replay_from : List Letter → ℕ → Counts → Exec ReplayStore Counts
    replay_from [] n c = pure c
    replay_from (l ∷ ls) n c = replay_letter l n c >>= replay_from ls (n + 1)
