-- ===== src/Worker/Failures.antt =====
-- What services/worker/src/index.ts does to the slots, the dead letters and the record of a job.
use Prim.Native.String.{◌++◌}
use mathlib.Core.List.{◌++◌ as join}
use cloud_code_execution_eng.Prelude.{
  ◌∙◌, ℕ, ◌+◌, ◌-◌, ◌*◌, ◌^◌, ◌≤◌, ◌<◌, ◌≡◌, ◌↔◌, refl, String, false, Option, some, List, [], ◌∷◌,
  min, ltb, arith, lt→ltb,
}
use cloud_code_execution_eng.Common.Jobs.{QueueJobPayload}
use cloud_code_execution_eng.Worker.Process.{
  ecs, jittered_backoff, get_queue_depth, QueueDepthMetric, queue_depth_metric, WorkerConfig,
  on_failed,
}
use cloud_code_execution_eng.Effect.{Result, calm}
use cloud_code_execution_eng.Effect.Frame.{Keeps, Keeps-then, Keeps-command}
use cloud_code_execution_eng.Services.{Services, Store}
use cloud_code_execution_eng.Common.Keys.{redis_job_key}
use cloud_code_execution_eng.Redis.HashLaws.{hget-hset_own, hget-expire_own}
use cloud_code_execution_eng.Quota.{decrement_active_quota}
use cloud_code_execution_eng.Worker.Records.{W, mark_retrying}
use cloud_code_execution_eng.Worker.Endings.{mark_failed, mark_dead_lettered, failed_updates}
use cloud_code_execution_eng.Worker.Ecs.{RunTask, RunTaskResponse}
use cloud_code_execution_eng.Worker.Local.{DockerRun}

-- With a jitter below the base, a retry is delayed by at most the limit, by at least the doubled
-- base for each attempt before or the limit, and by less than one base more.
pub jittered_backoff_bounds :
    (attempts_made base_delay_ms max_delay_ms jitter : ℕ)
    → jitter < base_delay_ms
    → (jittered_backoff attempts_made base_delay_ms max_delay_ms jitter ≤ max_delay_ms)
      × (min max_delay_ms (base_delay_ms * 2 ^ (attempts_made - 1))
          ≤ jittered_backoff attempts_made base_delay_ms max_delay_ms jitter)
      × (jittered_backoff attempts_made base_delay_ms max_delay_ms jitter
          < base_delay_ms * 2 ^ (attempts_made - 1) + base_delay_ms)
unfolding jittered_backoff
jittered_backoff_bounds a b m j h = (omega arith, omega arith, omega arith)

-- The scale signal exceeds the target exactly when a job waits, and is at least the depth of the
-- queue.
pub queue_depth_metric_signals :
    (target waiting_count : ℕ) (m : QueueDepthMetric)
    → queue_depth_metric ecs target waiting_count ≡ some m
    → ((target < m.scale_signal) ↔ (0 < waiting_count)) × (m.queue_depth ≤ m.scale_signal)
unfolding queue_depth_metric get_queue_depth
queue_depth_metric_signals target waiting_count m h = ground arith

not_below : (a m : ℕ) → m ≤ a → ltb a m ≡ false
not_below a m h = ground arith

module _ (sv : Services) (encode : QueueJobPayload → String) (trim : String → String)
    (docker : List String → Result DockerRun) (send : RunTask → Result RunTaskResponse)
    (config : WorkerConfig) where
  abbrev pub failed_handler : QueueJobPayload → ℕ → ℕ → String → String → String → W sv (Unit {0})
  failed_handler = on_failed sv encode trim docker send config

  -- The slots and the dead letters.
  abbrev pub accounts : Store sv → sv.counters.Db × sv.dead_letters.Db
  accounts s = (s.counters, s.dead_letters)

  mark_retrying-Keeps :
      (now job_id tenant_id key : String) (trace_id : Option String) (message : String) (next : ℕ)
      → Keeps accounts (mark_retrying sv now job_id tenant_id key trace_id message next)
  unfolding mark_retrying
  mark_retrying-Keeps now job_id tenant_id key trace_id message next =
      Keeps-then accounts (Keeps-command accounts _ (λ s. refl))
        (Keeps-command accounts _ (λ s. refl))

  -- While attempts are left, the failed handler changes neither the slots nor the dead letters,
  -- whatever the network loses.
  pub on_failed-retries :
      (payload : QueueJobPayload) (attempts_made max_attempts : ℕ) (message now millis : String)
      → attempts_made < max_attempts
      → Keeps accounts (failed_handler payload attempts_made max_attempts message now millis)
  unfolding on_failed
  on_failed-retries payload a m message now millis h = rw (lt→ltb a m h) (
      mark_retrying-Keeps now payload.job_id payload.tenant_id config.audit_stream_key
        payload.trace_id message (a + 1))

  -- What is true of the store after a job is given up.
  pub record IsGivenUp (payload : QueueJobPayload) (attempts_made : ℕ) (message now millis : String)
      (before after : Store sv) : Type 0 where
    pub slot_released :
        after.counters ≡ decrement_active_quota sv.counters payload.tenant_id before.counters
    pub letter_added :
        sv.dead_letters.waiting after.dead_letters
        ≡ join (sv.dead_letters.waiting before.dead_letters) (
            (
              payload.job_id ++ ("-dlq-" ++ millis),
              record {
                payload = payload;
                error = message;
                attempts_made = attempts_made;
                failed_at = now;
              },
            )
            ∷ [])
    pub status_failed :
        sv.hashes.hget (redis_job_key payload.job_id) "status" after.hashes ≡ some "failed"
    pub error_kept :
        sv.hashes.hget (redis_job_key payload.job_id) "error" after.hashes ≡ some message
    pub marked :
        sv.hashes.hget (redis_job_key payload.job_id) "deadLetteredAt" after.hashes ≡ some now

  -- When no attempt is left, the time to live is positive and every call is answered, the failed
  -- handler releases one slot, adds the job to the dead letters with its error, and marks it
  -- failed and dead-lettered.
  pub on_failed-IsGivenUp :
      (payload : QueueJobPayload) (attempts_made max_attempts : ℕ) (message now millis : String)
      (s : Store sv)
      → max_attempts ≤ attempts_made
      → 0 < config.job_ttl_seconds
      → IsGivenUp payload attempts_made message now millis s
          (failed_handler payload attempts_made max_attempts message now millis (calm s)).1.store
  unfolding on_failed mark_failed mark_dead_lettered
  on_failed-IsGivenUp payload a m message now millis s h lives =
      let k = redis_job_key payload.job_id in
      let us =
        failed_updates sv now payload.job_id payload.tenant_id config.audit_stream_key
          payload.trace_id message in
      let after = sv.hashes.expire k config.job_ttl_seconds (sv.hashes.hset k us s.hashes) in
      let own = λ (f : String).
        hget-hset_own sv.hashes k f (("deadLetteredAt", now) ∷ ("updatedAt", now) ∷ []) after in
      let old =
        λ (f : String). hget-expire_own sv.hashes k f us config.job_ttl_seconds s.hashes lives in
      rw (not_below a m h) (record {
        slot_released = refl;
        letter_added = sv.dead_letters.waiting-add _ _ _;
        status_failed = own "status" ∙ old "status";
        error_kept = own "error" ∙ old "error";
        marked = own "deadLetteredAt";
      })
