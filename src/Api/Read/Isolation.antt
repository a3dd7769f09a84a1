-- ===== src/Api/Read/Isolation.antt =====
-- Whose jobs and events the handlers of services/api/src/index.ts show.
use mathlib.Core.List.{reverse}
use cloud_code_execution_eng.Prelude.{
  [], ◌∷◌, false, ◌≢◌, ◌↔◌, ap, sym, ◌∙◌, any, eq_iff, eq_refl, ◌===◌, ◌&&◌, ℕ, ◌*◌, ◌≤◌, ◌≡◌, refl,
  String, Bool, true, Option, none, some, List, min, length, take, keep, All, arith, Bool-cases,
  inl, inr, length-take, All-take, length-keep, keep-All,
}
use cloud_code_execution_eng.Effect.{ok, calm}
use cloud_code_execution_eng.Common.Keys.{tenant_job_history_key}
use cloud_code_execution_eng.Redis.Streams.{AuditEvent}
use cloud_code_execution_eng.Services.{Services, Store}
use cloud_code_execution_eng.Api.Http.{Request}
use cloud_code_execution_eng.Api.Auth.{Gate, passes, replies}
use cloud_code_execution_eng.Api.Jobs.{Fields, is_own, is_shown, is_text}
use cloud_code_execution_eng.Api.Read.{fields, checked, get_execution, list_executions, list_audit}

module _ (sv : Services) (request : Request) (tenant_id : String) where
  -- The fields of a job that Redis keeps for the tenant: the owner's id, and a status that is
  -- written.
  abbrev pub IsOwned : Fields → Type 0
  IsOwned job =
      (job "tenantId" ≡ some tenant_id)
      × ((status : String) × (job "status" ≡ some status) × (status ≢ ""))

  owned-option :
      (status owner : Option String)
      → (is_shown status && is_text tenant_id owner) ≡ true
      → (owner ≡ some tenant_id) × ((value : String) × (status ≡ some value) × (value ≢ ""))
  owned-option none owner h = absurd (cc h)
  owned-option (some value) none h = absurd (ground arith)
  owned-option (some value) (some owner) h =
      let filled : (value === "") ≡ false = ground arith in
      let same : (owner === tenant_id) ≡ true = ground arith in
      (
        ap (λ t. some t) ((eq_iff owner tenant_id).0 same),
        (value, refl, λ (e : value ≡ ""). ground (arith, eq_iff value "")),
      )

  is_own-IsOwned : (job : Fields) → (is_own tenant_id job ≡ true) ↔ IsOwned job
  is_own-IsOwned job = (
    λ own. owned-option (job "status") (job "tenantId") own,
    λ (owner, (status, written, filled)).
        let kept : (status === "") ≡ false = ground (arith, eq_iff status "") in
        rw (written, owner, kept) (eq_refl tenant_id),
  )

  not-IsOwned : (job : Fields) → is_own tenant_id job ≡ false → IsOwned job → ⊥
  not-IsOwned job other owned =
      let own : is_own tenant_id job ≡ true = (is_own-IsOwned job).1 owned in
      let wrong : true ≡ false = sym own ∙ other in cc wrong

  -- What a reply to a request for a job is worth: it shows the tenant's own job, as it is kept, or
  -- says that there is none, or that no id was given.
  abbrev pub ShowsOwn : Option String → Store sv → Gate Fields → Type 0
  ShowsOwn none s (passes job _) = ⊥
  ShowsOwn none s (replies r) = r.code ≡ 400
  ShowsOwn (some job_id) s (passes job _) =
      (job ≡ fields sv request tenant_id job_id s) × IsOwned job
  ShowsOwn (some job_id) s (replies r) =
      (r.code ≡ 404) × (IsOwned (fields sv request tenant_id job_id s) → ⊥)

  -- When every call is answered, a request without an id gets the reply 400; with one, the job is
  -- shown as Redis keeps it, and then Redis keeps it with this tenant as its owner and with a
  -- status, or the reply is 404, and then Redis keeps no such job.
  pub get_execution-ShowsOwn :
      (job_id : Option String) (s : Store sv)
      → (g : Gate Fields) × ((get_execution sv request tenant_id job_id (calm s)).0 ≡ ok g)
        × ShowsOwn job_id s g
  unfolding get_execution
  get_execution-ShowsOwn none s = (_, refl, refl)
  get_execution-ShowsOwn (some job_id) s =
      let job = fields sv request tenant_id job_id s in
      (
        checked sv request tenant_id job,
        refl,
        elim (Bool-cases (is_own tenant_id job)) [
          | inl own ↦ rw own (refl, (is_own-IsOwned job).0 own)
          | inr other ↦ rw other (refl, not-IsOwned job other)
        ],
      )

  bounded_list : {A : Type 0} (p : A → Bool) (n : ℕ) (xs : List A) → length (keep p (take n xs)) ≤ n
  bounded_list p n xs =
      let kept = length-keep p (take n xs) in let taken = length-take n xs in omega arith

  contains-keep :
      (p : String → Bool) (id : String) (ids : List String)
      → any (λ x. x === id) (keep p ids) ≡ (any (λ x. x === id) ids && p id)
  contains-keep p id [] = refl
  contains-keep p id (x ∷ ids) =
      let later = contains-keep p id ids in
      elim (Bool-cases (x === id)) [
        | inl same ↦
            let one : p x ≡ p id = ap p ((eq_iff x id).0 same) in
            elim (Bool-cases (p id)) [
              | inl good ↦ rw (one ∙ good, same, good) refl
              | inr bad ↦
                  let out : any (λ y. y === id) (keep p ids) ≡ false = ground (arith, later) in
                  rw (one ∙ bad, same, bad) out
            ]
        | inr other ↦ elim (Bool-cases (p x)) [
          | inl good ↦ rw (good, other) later
          | inr bad ↦ rw (bad, other) later
        ]
      ]

  both_iff :
      {P : Type 0} (a b c : Bool) → c ≡ (a && b) → (b ≡ true) ↔ P → (c ≡ true) ↔ ((a ≡ true) × P)
  both_iff a b c e (there, back) = (
    λ h.
        let first : a ≡ true = ground arith in
        let second : b ≡ true = ground arith in (first, there second),
    λ (h, p). let second : b ≡ true = back p in ground arith,
  )

  -- When every call is answered, no more jobs are listed than asked for, and a job is listed
  -- exactly if it is among so many of the newest in the tenant's history and Redis keeps it with
  -- this tenant as its owner and with a status.
  pub list_executions-own :
      (limit : ℕ) (s : Store sv) (id : String)
      → (ids : List String) × ((list_executions sv request tenant_id limit (calm s)).0 ≡ ok ids)
        × (length ids ≤ limit)
        × ((any (λ x. x === id) ids ≡ true) ↔ (
            (any
                (λ x. x === id)
                (take limit (reverse (sv.sets.members (tenant_job_history_key tenant_id) s.sets)))
              ≡ true)
            × IsOwned (fields sv request tenant_id id s)))
  unfolding list_executions
  list_executions-own limit s id =
      let newest = reverse (sv.sets.members (tenant_job_history_key tenant_id) s.sets) in
      let own = λ (i : String). is_own tenant_id (fields sv request tenant_id i s) in
      (
        keep own (take limit newest),
        refl,
        bounded_list own limit newest,
        both_iff (any (λ x. x === id) (take limit newest)) (own id) _
            (contains-keep own id (take limit newest))
            (is_own-IsOwned (fields sv request tenant_id id s)),
      )

  -- When every call is answered, every event that is listed for a tenant is one of the tenant's,
  -- and no more are listed than asked for.
  pub list_audit-own :
      (stream_key : String) (limit : ℕ) (s : Store sv)
      → (events : List AuditEvent) × ((list_audit sv request tenant_id stream_key limit (calm s)).0
          ≡ ok events)
        × All (λ (e : AuditEvent). is_text tenant_id e.tenant_id ≡ true) events
        × (length events ≤ limit)
  unfolding list_audit
  list_audit-own stream_key limit s =
      let own = λ (e : AuditEvent). is_text tenant_id e.tenant_id in
      let newest =
        take (min (limit * 10) 1000) (reverse (sv.streams.entries stream_key s.streams)) in
      let kept = keep own newest in
      let taken = length-take limit kept in
      (take limit kept, refl, All-take _ limit kept (keep-All own newest), omega arith)
