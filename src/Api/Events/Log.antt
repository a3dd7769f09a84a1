-- ===== src/Api/Events/Log.antt =====
-- What the event stream of services/api/src/index.ts sends, in any order of its steps.
use cloud_code_execution_eng.Prelude.{
  ◌≡◌, ◌≢◌, refl, sym, ap, ◌∙◌, String, Bool, true, false, Option, none, some, List, [], ◌∷◌, ◌++◌,
  All, All-append, arith, Bool-cases, inl, inr, eq_iff,
}
use mathlib.Core.List.{append-nil}
use cloud_code_execution_eng.Effect.{Result, ok, err}
use cloud_code_execution_eng.Services.{Services}
use cloud_code_execution_eng.Api.Jobs.{Fields, Execution, serialize_job, is_own, is_text}
use cloud_code_execution_eng.Api.Events.{
  Event, job_event, done_event, error_event, Stream, opened, close_stream, send_changed,
  end_if_terminal, fail_stream, publish_snapshot, Step, snapshot, client_closes, Reach, here, next,
  is_terminal, same_text,
}

module _ (sv : Services) (tenant_id : String) where
  abbrev pub IsOwnJob : Event sv → Type 0
  IsOwnJob (job_event e) = e.tenant_id ≡ some tenant_id
  IsOwnJob (done_event status) = ⊥
  IsOwnJob (error_event message) = ⊥

  -- Every job that is sent was updated since the one before it; `end` is the last one's time.
  abbrev pub Changes : Option String → List (Event sv) → Option String → Type 0
  Changes start [] end = start ≡ end
  Changes start (job_event e ∷ events) end =
      (e.updated_at ≢ start) × Changes e.updated_at events end
  Changes start (done_event status ∷ events) end = Changes start events end
  Changes start (error_event message ∷ events) end = Changes start events end

  -- A stream ends with nothing more, with an error, or with a status that is final.
  abbrev pub IsEnd : List (Event sv) → Type 0
  IsEnd [] = Unit
  IsEnd (done_event status ∷ []) = is_terminal status ≡ true
  IsEnd (error_event message ∷ []) = Unit
  IsEnd _ = ⊥

  abbrev pub IsOpenLog : List (Event sv) → Option String → Type 0
  IsOpenLog sent last = All IsOwnJob sent × Changes (some "") sent last

  abbrev pub IsClosedLog : List (Event sv) → Type 0
  IsClosedLog sent =
      (jobs : List (Event sv)) × (end : List (Event sv)) × (last : Option String) × (sent
        ≡ jobs ++ end)
      × IsOpenLog jobs last
      × IsEnd end

  abbrev pub Log : Bool → Option String → List (Event sv) → Type 0
  Log false last sent = IsOpenLog sent last
  Log true last sent = IsClosedLog sent

  abbrev pub IsLog : Stream sv → Type 0
  IsLog s = Log s.closed s.last_updated_at s.sent

  abbrev stream : Bool → Option String → List (Event sv) → Stream sv
  stream closed last sent = record { closed = closed; last_updated_at = last; sent = sent }

  Changes-snoc :
      (start : Option String) (events : List (Event sv)) (last : Option String) (e : Execution sv)
      → Changes start events last
      → e.updated_at ≢ last
      → Changes start (events ++ job_event e ∷ []) e.updated_at
  Changes-snoc start [] last e h ne = (λ same. ne (same ∙ h), refl)
  Changes-snoc start (job_event d ∷ events) last e h ne =
      (h.0, Changes-snoc d.updated_at events last e h.1 ne)
  Changes-snoc start (done_event status ∷ events) last e h ne =
      Changes-snoc start events last e h ne
  Changes-snoc start (error_event m ∷ events) last e h ne = Changes-snoc start events last e h ne

  same_text-ne : (t u : Option String) → same_text t u ≡ false → t ≢ u
  same_text-ne none none differ same = cc
  same_text-ne none (some u) differ same = cc
  same_text-ne (some t) none differ same = cc
  same_text-ne (some t) (some u) differ same = ground (arith, eq_iff t u)

  module _ (last : Option String) (sent : List (Event sv)) (log : IsOpenLog sent last) where
    fail_stream-IsLog : (m : String) → IsLog (fail_stream sv m (stream false last sent))
    fail_stream-IsLog m = (sent, error_event m ∷ [], last, refl, log, tt)

    end_if_terminal-IsLog :
        (e : Execution sv) → IsLog (end_if_terminal sv e (stream false last sent))
    end_if_terminal-IsLog e = elim (Bool-cases (is_terminal e.status)) [
      | inl final ↦ rw final (sent, done_event e.status ∷ [], last, refl, log, final)
      | inr more ↦ rw more log
    ]

  send_changed-open :
      (e : Execution sv) (last : Option String) (sent : List (Event sv))
      → e.tenant_id ≡ some tenant_id
      → IsOpenLog sent last
      → (last' : Option String) × (sent' : List (Event sv)) × (send_changed sv e
            (stream false last sent)
          ≡ stream false last' sent')
        × IsOpenLog sent' last'
  send_changed-open e last sent own log = elim (Bool-cases (same_text e.updated_at last)) [
    | inl same ↦ (last, sent, rw same refl, log)
    | inr changed ↦ (
      e.updated_at,
      sent ++ job_event e ∷ [],
      rw changed refl,
      (
        All-append IsOwnJob sent (job_event e ∷ []) log.0 (own, tt),
        Changes-snoc (some "") sent last e log.1 (same_text-ne e.updated_at last changed),
      ),
    )
  ]

  is_own-tenant : (job : Fields) → is_own tenant_id job ≡ true → job "tenantId" ≡ some tenant_id
  is_own-tenant job h = tenant (job "tenantId") (ground arith)
    where
      tenant : (o : Option String) → is_text tenant_id o ≡ true → o ≡ some tenant_id
      tenant none e = cc
      tenant (some t) e = ap (λ x. some x) ((eq_iff t tenant_id).0 e)

  publish_snapshot-open :
      (answer : Result Fields) (last : Option String) (sent : List (Event sv))
      → IsOpenLog sent last
      → IsLog (publish_snapshot sv tenant_id answer (stream false last sent))
  unfolding publish_snapshot serialize_job
  publish_snapshot-open (err m) last sent log = fail_stream-IsLog last sent log "stream_failed"
  publish_snapshot-open (ok job) last sent log = elim (Bool-cases (is_own tenant_id job)) [
    | inl own ↦
        let e = serialize_job sv job in
        let (last', sent', changed, log') =
          send_changed-open e last sent (is_own-tenant job own) log in
        rw (own, changed) (end_if_terminal-IsLog last' sent' log' e)
    | inr other ↦ rw other (fail_stream-IsLog last sent log "not_found")
  ]

  end_if_terminal-closed :
      (e : Execution sv) (last : Option String) (sent : List (Event sv))
      → end_if_terminal sv e (stream true last sent) ≡ stream true last sent
  end_if_terminal-closed e last sent = elim (Bool-cases (is_terminal e.status)) [
    | inl final ↦ rw final refl
    | inr more ↦ rw more refl
  ]

  send_changed-closed :
      (e : Execution sv) (last : Option String) (sent : List (Event sv))
      → (last' : Option String) × (send_changed sv e (stream true last sent)
          ≡ stream true last' sent)
  send_changed-closed e last sent = elim (Bool-cases (same_text e.updated_at last)) [
    | inl same ↦ (last, rw same refl)
    | inr changed ↦ (e.updated_at, rw changed refl)
  ]

  -- A stream that is closed sends nothing more and stays closed.
  pub publish_snapshot-closed :
      (answer : Result Fields) (last : Option String) (sent : List (Event sv))
      → (last' : Option String) × (publish_snapshot sv tenant_id answer (stream true last sent)
          ≡ stream true last' sent)
  unfolding publish_snapshot
  publish_snapshot-closed (err m) last sent = (last, refl)
  publish_snapshot-closed (ok job) last sent =
      let e = serialize_job sv job in
      let (last', changed) = send_changed-closed e last sent in
      elim (Bool-cases (is_own tenant_id job)) [
        | inl own ↦ (
          last',
          rw own (ap (end_if_terminal sv e) changed ∙ end_if_terminal-closed e last' sent),
        )
        | inr other ↦ (last, rw other refl)
      ]

  publish_snapshot-IsLog :
      (answer : Result Fields) (closed : Bool) (last : Option String) (sent : List (Event sv))
      → Log closed last sent
      → IsLog (publish_snapshot sv tenant_id answer (stream closed last sent))
  publish_snapshot-IsLog answer true last sent log =
      let (last', silent) = publish_snapshot-closed answer last sent in rw silent log
  publish_snapshot-IsLog answer false last sent log = publish_snapshot-open answer last sent log

  close_stream-IsLog :
      (closed : Bool) (last : Option String) (sent : List (Event sv))
      → Log closed last sent
      → IsLog (close_stream sv (stream closed last sent))
  close_stream-IsLog true last sent log = log
  close_stream-IsLog false last sent log = (sent, [], last, sym (append-nil sent), log, tt)

  Step-IsLog : {s t : Stream sv} → Step sv tenant_id s t → IsLog s → IsLog t
  Step-IsLog (snapshot answer s) log =
      publish_snapshot-IsLog answer s.closed s.last_updated_at s.sent log
  Step-IsLog (client_closes s) log = close_stream-IsLog s.closed s.last_updated_at s.sent log

  -- Whatever Redis answers and whenever the client leaves, the stream sends jobs of the tenant
  -- only, each with another time of update than the one before, and then at most one more event,
  -- which is an error or a final status; with that event the stream is closed.
  pub Reach-IsLog : {s : Stream sv} → Reach sv tenant_id (opened sv) s → IsLog s
  Reach-IsLog here = (tt, refl)
  Reach-IsLog (next r step) = Step-IsLog step (Reach-IsLog r)
