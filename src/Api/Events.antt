-- ===== src/Api/Events.antt =====
-- services/api/src/index.ts: the event stream of a job, app.get("/v1/jobs/:jobId/events"). Redis
-- answers the reads of one stream in any number and at any time; what each answer does is one step.
pub mod Log
pub mod Done
use cloud_code_execution_eng.Prelude.{
  ℕ, String, Bool, true, false, ◌&&◌, ◌||◌, not, Option, none, some, List, [], ◌∷◌, ◌++◌, any,
  ◌===◌, if◌then◌else◌,
}
use cloud_code_execution_eng.Effect.{Result, ok, err}
use cloud_code_execution_eng.Services.{Services}
use cloud_code_execution_eng.Api.Jobs.{Fields, Execution, serialize_job, is_own}

abbrev same_text : Option String → Option String → Bool
same_text none none = true
same_text none (some u) = false
same_text (some t) none = false
same_text (some t) (some u) = t === u

abbrev terminal_statuses : List String
terminal_statuses = "succeeded" ∷ "failed" ∷ "timed_out" ∷ []

abbrev pub is_terminal : Option String → Bool
is_terminal none = false
is_terminal (some status) = any (λ t. t === status) terminal_statuses

module _ (sv : Services) where
  pub data Event : Type 0 where
    job_event : Execution sv → Event
    done_event : Option String → Event
    error_event : String → Event

  -- The variables of the handler, and what was written to the socket, in order.
  pub record Stream : Type 0 where
    pub closed : Bool
    pub last_updated_at : Option String
    pub sent : List Event

  abbrev pub opened : Stream
  opened = record { closed = false; last_updated_at = some ""; sent = [] }

  abbrev pub send_event : Event → Stream → Stream
  send_event e s = if s.closed then s else record s { sent = s.sent ++ e ∷ [] }

  abbrev pub close_stream : Stream → Stream
  close_stream s = if s.closed then s else record s { closed = true }

  abbrev pub send_changed : Execution sv → Stream → Stream
  send_changed execution s =
      if same_text execution.updated_at s.last_updated_at
      then s
      else send_event (job_event execution) (record s { last_updated_at = execution.updated_at })

  abbrev pub end_if_terminal : Execution sv → Stream → Stream
  end_if_terminal execution s =
      if is_terminal execution.status
      then close_stream (send_event (done_event execution.status) s)
      else s

  abbrev pub fail_stream : String → Stream → Stream
  fail_stream message s = close_stream (send_event (error_event message) s)

  -- What publishSnapshot does once its read is answered, or is lost.
  unfoldable pub publish_snapshot : String → Result Fields → Stream → Stream
  publish_snapshot tenant_id (err message) s = fail_stream "stream_failed" s
  publish_snapshot tenant_id (ok job) s =
      if is_own tenant_id job
      then end_if_terminal (serialize_job sv job) (send_changed (serialize_job sv job) s)
      else fail_stream "not_found" s

  -- A read is answered, or the client closes the connection.
  pub data Step (tenant_id : String) : Stream → Stream → Type 0 where
    snapshot :
        (answer : Result Fields) (s : Stream)
        → Step tenant_id s (publish_snapshot tenant_id answer s)
    client_closes : (s : Stream) → Step tenant_id s (close_stream s)

  pub data Reach (tenant_id : String) (s : Stream) : Stream → Type 0 where
    here : Reach tenant_id s s
    next : {t u : Stream} → Reach tenant_id s t → Step tenant_id t u → Reach tenant_id s u
