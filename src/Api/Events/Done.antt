-- ===== src/Api/Events/Done.antt =====
-- The end of the event stream of services/api/src/index.ts for a client that stays.
use cloud_code_execution_eng.Prelude.{
  eq_refl, some, Bool, ◌&&◌, if◌then◌else◌, ◌≡◌, refl, ap, String, true, false, Option, List, [],
  ◌∷◌, ◌++◌, All, Bool-cases, inl, inr,
}
use cloud_code_execution_eng.Effect.{ok}
use cloud_code_execution_eng.Services.{Services}
use cloud_code_execution_eng.Common.Jobs.{JobStatus, status_name, ResultStatus, result_status_name}
use cloud_code_execution_eng.Api.Jobs.{
  Fields, Execution, serialize_job, is_own, is_shown, is_text, did_time_out, parse_execution_result,
}
use cloud_code_execution_eng.Api.Jobs.Shown.{outcome_name}
use cloud_code_execution_eng.Api.Events.{
  Event, job_event, done_event, Stream, send_changed, publish_snapshot, is_terminal, same_text,
}

module _ (sv : Services) (tenant_id : String) where
  -- What the reads that are answered with these jobs, one after the other, make of a stream.
  abbrev pub polled : List Fields → Stream sv → Stream sv
  polled [] s = s
  polled (job ∷ jobs) s = polled jobs (publish_snapshot sv tenant_id (ok job) s)

  abbrev pub IsUnfinished : JobStatus → Type 0
  IsUnfinished JobStatus.succeeded = ⊥
  IsUnfinished JobStatus.failed = ⊥
  IsUnfinished _ = Unit

  -- The tenant's job in Redis, with a status that the services write before its end.
  pub record IsRunning (job : Fields) : Type 0 where
    pub owner : job "tenantId" ≡ some tenant_id
    pub now : JobStatus
    pub unfinished : IsUnfinished now
    pub written : job "status" ≡ some (status_name now)

  -- The tenant's job in Redis, with the status that the services write at its end; `timed_out` is
  -- what the result says of it, if it has one.
  pub record IsFinal (job : Fields) (end : ResultStatus) (timed_out : Bool) : Type 0 where
    pub owner : job "tenantId" ≡ some tenant_id
    pub written : job "status" ≡ some (result_status_name end)
    pub said : did_time_out (parse_execution_result sv (job "result")) ≡ timed_out

  -- The last event of the stream says that the job ended with this status.
  abbrev pub IsDone : Option String → Stream sv → Type 0
  IsDone status s =
      (s.closed ≡ true) × ((before : List (Event sv)) × (s.sent ≡ before ++ done_event status ∷ []))

  abbrev stream : Option String → List (Event sv) → Stream sv
  stream last sent = record { closed = false; last_updated_at = last; sent = sent }

  abbrev IsOpen : Stream sv → Type 0
  IsOpen s = (last : Option String) × (sent : List (Event sv)) × (s ≡ stream last sent)

  send_changed-IsOpen :
      (e : Execution sv) (last : Option String) (sent : List (Event sv))
      → IsOpen (send_changed sv e (stream last sent))
  send_changed-IsOpen e last sent = elim (Bool-cases (same_text e.updated_at last)) [
    | inl same ↦ (last, sent, rw same refl)
    | inr changed ↦ (e.updated_at, sent ++ job_event e ∷ [], rw changed refl)
  ]

  running-own : (job : Fields) → IsRunning job → is_own tenant_id job ≡ true
  running-own job r = rw (r.owner, r.written, filled r.now) (eq_refl tenant_id)
    where
      filled : (now : JobStatus) → is_shown (some (status_name now)) ≡ true
      filled JobStatus.queued = refl
      filled JobStatus.retrying = refl
      filled JobStatus.running = refl
      filled JobStatus.dispatched = refl
      filled JobStatus.succeeded = refl
      filled JobStatus.failed = refl

  running-open : (job : Fields) → IsRunning job → is_terminal (serialize_job sv job).status ≡ false
  unfolding serialize_job
  running-open job r = rw r.written (still r.now r.unfinished)
    where
      still :
          (now : JobStatus)
          → IsUnfinished now
          → is_terminal (
              if is_text "failed" (some (status_name now))
                && did_time_out (parse_execution_result sv (job "result"))
              then some "timed_out"
              else some (status_name now))
            ≡ false
      still JobStatus.queued h = refl
      still JobStatus.retrying h = refl
      still JobStatus.running h = refl
      still JobStatus.dispatched h = refl
      still JobStatus.succeeded h = elim h [ ]
      still JobStatus.failed h = elim h [ ]

  module _ (job : Fields) (end : ResultStatus) (timed_out : Bool)
      (final : IsFinal job end timed_out) where
    final-own : is_own tenant_id job ≡ true
    final-own = rw (final.owner, final.written, filled end) (eq_refl tenant_id)
      where
        filled : (end : ResultStatus) → is_shown (some (result_status_name end)) ≡ true
        filled ResultStatus.succeeded = refl
        filled ResultStatus.failed = refl

    final-status : (serialize_job sv job).status ≡ some (outcome_name end timed_out)
    unfolding serialize_job
    final-status = rw (final.written, final.said) (shown end timed_out)
      where
        shown :
            (end : ResultStatus) (timed_out : Bool)
            → (if is_text "failed" (some (result_status_name end)) && timed_out
                then some "timed_out"
                else some (result_status_name end))
              ≡ some (outcome_name end timed_out)
        shown ResultStatus.succeeded timed_out = refl
        shown ResultStatus.failed true = refl
        shown ResultStatus.failed false = refl

  outcome-final :
      (end : ResultStatus) (timed_out : Bool)
      → is_terminal (some (outcome_name end timed_out)) ≡ true
  outcome-final ResultStatus.succeeded timed_out = refl
  outcome-final ResultStatus.failed true = refl
  outcome-final ResultStatus.failed false = refl

  publish_snapshot-IsOpen :
      (job : Fields) (s : Stream sv)
      → IsRunning job
      → IsOpen s
      → IsOpen (publish_snapshot sv tenant_id (ok job) s)
  unfolding publish_snapshot
  publish_snapshot-IsOpen job s running (last, sent, e) =
      let (last', sent', changed) = send_changed-IsOpen (serialize_job sv job) last sent in
      rw e (rw (running-own job running, changed, running-open job running) (last', sent', refl))

  polled-IsOpen :
      (jobs : List Fields) (s : Stream sv) → All IsRunning jobs → IsOpen s → IsOpen (polled jobs s)
  polled-IsOpen [] s running still = still
  polled-IsOpen (job ∷ jobs) s running still =
      polled-IsOpen jobs (publish_snapshot sv tenant_id (ok job) s) running.1
        (publish_snapshot-IsOpen job s running.0 still)

  publish_snapshot-IsDone :
      (job : Fields) (end : ResultStatus) (timed_out : Bool) (s : Stream sv)
      → IsFinal job end timed_out
      → IsOpen s
      → IsDone (some (outcome_name end timed_out)) (publish_snapshot sv tenant_id (ok job) s)
  unfolding publish_snapshot
  publish_snapshot-IsDone job end timed_out s final (last, sent, e) =
      let (last', sent', changed) = send_changed-IsOpen (serialize_job sv job) last sent in
      let status = final-status job end timed_out final in
      let ended : is_terminal (serialize_job sv job).status ≡ true =
        rw status (outcome-final end timed_out) in
      rw e (rw (final-own job end timed_out final, changed, ended) (refl, (sent', rw status refl)))

  -- While every read is answered with the tenant's job and the client stays, the stream is open as
  -- long as the status in Redis is queued, retrying, running or dispatched, and the first read
  -- with the status succeeded or failed sends, as the last event, "succeeded", "failed" or, if the
  -- result says that the time ran out, "timed_out", and closes the stream.
  pub polled-IsDone :
      (jobs : List Fields) (job : Fields) (end : ResultStatus) (timed_out : Bool) (s : Stream sv)
      → s.closed ≡ false
      → All IsRunning jobs
      → IsFinal job end timed_out
      → ((polled jobs s).closed ≡ false)
        × IsDone
            (some (outcome_name end timed_out))
            (publish_snapshot sv tenant_id (ok job) (polled jobs s))
  polled-IsDone jobs job end timed_out s closed running final =
      let still =
        polled-IsOpen jobs s running
          (s.last_updated_at, s.sent, ap (λ b. record s { closed = b }) closed) in
      (
        ap (λ (t : Stream sv). t.closed) still.2,
        publish_snapshot-IsDone job end timed_out (polled jobs s) final still,
      )
