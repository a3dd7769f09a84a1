-- ===== src/Api/Submit/Rollback.antt =====
-- What submitExecutionHandler of services/api/src/index.ts leaves behind.
use mathlib.Core.List.{◌++◌ as join}
use cloud_code_execution_eng.Prelude.{
  ℕ, ◌-◌, ◌≤◌, ◌<◌, ◌≡◌, refl, sym, ◌∙◌, ap, String, Bool, true, none, some, [], ◌∷◌, length,
  length-drop, All, keep-All, not, ◌===◌, ltb, arith, eq_refl, Bool-cases, inl, inr,
}
use cloud_code_execution_eng.Effect.{
  Exec, ◌>>◌, command, Result, ok, err, World, delivered, unacknowledged, calm,
}
use cloud_code_execution_eng.Effect.Frame.{
  Keeps, Keeps-pure, Keeps-raise, Keeps-command, Keeps-then, Keeps-bind,
}
use cloud_code_execution_eng.Common.Keys.{redis_job_key, tenant_job_history_key}
use cloud_code_execution_eng.Common.Jobs.{JobRequest, QueueJobPayload}
use cloud_code_execution_eng.Common.Schema.{payload_fits}
use cloud_code_execution_eng.Quota.{rollback_reserved_quota}
use cloud_code_execution_eng.Redis.HashLaws.{hget-expire_own, hget-del_own}
use cloud_code_execution_eng.Services.{Services, Store}
use cloud_code_execution_eng.Tenants.{TenantPrincipal}
use cloud_code_execution_eng.Api.Http.{Response, Request, ApiConfig}
use cloud_code_execution_eng.Api.Auth.{AuthenticatedTenant}
use cloud_code_execution_eng.Api.Submit.{
  trim_history, append_history_item, payload_of, parse_payload, queued_updates, enqueue, undo,
  accept, submit_reserved,
}

module _ (sv : Services) (config : ApiConfig) where
  -- After the trim script a history has at most its greatest length.
  pub trim_history-length :
      (key : String) (max_items : ℕ) (db : sv.sets.Db)
      → length (sv.sets.members key (trim_history sv config key max_items db)) ≤ max_items
  unfolding trim_history
  trim_history-length key max_items db =
      elim (Bool-cases (ltb max_items (length (sv.sets.members key db)))) [
        | inl e ↦
            rw
              (
                e,
                sv.sets.members-remove_lowest key key (length (sv.sets.members key db) - max_items)
                    db,
                eq_refl key,
                length-drop (length (sv.sets.members key db) - max_items) (sv.sets.members key db),
              )
              (ground arith)
        | inr e ↦ rw e (ground arith)
      ]

module _ (sv : Services) (config : ApiConfig) (is_uuid : String → Bool) (issues : String)
    (request : Request) (job_id created_at : String) where
  abbrev counters_of : Store sv → sv.counters.Db
  counters_of s = s.counters

  parse-Keeps :
      (p : QueueJobPayload)
      → Keeps counters_of (parse_payload sv config is_uuid issues request job_id created_at p)
  parse-Keeps p = elim (Bool-cases (payload_fits is_uuid p)) [
    | inl e ↦ rw e (Keeps-pure counters_of p)
    | inr e ↦ rw e (Keeps-raise counters_of issues)
  ]

  enqueue-Keeps :
      (tenant : TenantPrincipal) (r : JobRequest)
      → Keeps counters_of (enqueue sv config is_uuid issues request job_id created_at tenant r)
  unfolding enqueue append_history_item
  enqueue-Keeps tenant r = Keeps-bind counters_of _ _ (parse-Keeps _) λ p.
      andthen (own _ (λ s. refl)) (
        andthen (own _ (λ s. refl)) (
          andthen (andthen (own _ (λ s. refl)) (andthen (own _ (λ s. refl)) (own _ (λ s. refl))))
            (andthen (own _ (λ s. refl)) (Keeps-pure counters_of _))))
    where
      own :
          (f : Store sv → Store sv)
          → ((s : Store sv) → counters_of (f s) ≡ counters_of s)
          → Keeps counters_of (command f)
      own = Keeps-command counters_of

      andthen :
          {A B : Type 0} {m : Exec (Store sv) A} {n : Exec (Store sv) B}
          → Keeps counters_of m
          → Keeps counters_of n
          → Keeps counters_of (m >> n)
      andthen = Keeps-then counters_of

  unlisted :
      (tenant_id : String) (db : sv.sets.Db)
      → All
          (λ id. not (id === job_id) ≡ true)
          (sv.sets.members
            (tenant_job_history_key tenant_id)
            (sv.sets.zrem (tenant_job_history_key tenant_id) job_id db))
  unlisted tenant_id db =
      let key = tenant_job_history_key tenant_id in
      rw (sv.sets.members-zrem key key job_id db, eq_refl key)
        (keep-All (λ id. not (id === job_id)) (sv.sets.members key db))

  -- The submission is refused, and nothing is left of it but what the queue may hold.
  pub record IsUndone (tenant_id date_key : String) (before : Store sv)
      (r : Result Response × World (Store sv)) : Type 0 where
    pub response : Response
    pub answer : r.0 ≡ ok response
    pub code : response.code ≡ 503
    pub quota :
        r.1.store.counters ≡ rollback_reserved_quota sv.counters tenant_id date_key before.counters
    pub no_history :
        All
          (λ id. not (id === job_id) ≡ true)
          (sv.sets.members (tenant_job_history_key tenant_id) r.1.store.sets)
    pub no_job : (f : String) → sv.hashes.hget (redis_job_key job_id) f r.1.store.hashes ≡ none

  -- If putting a job into the store and the queue throws and the calls after it are answered, the
  -- submission replies 503, the reservation is rolled back, no field of the job is left, and the
  -- history of the tenant does not hold it.
  pub submit_reserved-IsUndone :
      (tenant : AuthenticatedTenant) (r : JobRequest) (date_key message : String)
      (w : World (Store sv)) (s : Store sv)
      → enqueue sv config is_uuid issues request job_id created_at tenant.principal r w
        ≡ (err message, calm s)
      → IsUndone tenant.principal.tenant_id date_key w.store
          (submit_reserved sv config is_uuid issues request job_id created_at tenant r date_key w)
  unfolding submit_reserved undo
  submit_reserved-IsUndone tenant r date_key message w s e =
      let same : s.counters ≡ w.store.counters =
        sym (ap (λ x. x.1.store.counters) e) ∙ (enqueue-Keeps tenant.principal r).at w in
      rw e (record {
        response = _;
        answer = refl;
        code = refl;
        quota = ap (rollback_reserved_quota sv.counters tenant.principal.tenant_id date_key) same;
        no_history = unlisted tenant.principal.tenant_id _;
        no_job = λ f. hget-del_own sv.hashes (redis_job_key job_id) f _;
      })

  -- The job is queued, its slot kept.
  pub record IsAccepted (payload : QueueJobPayload) (before : Store sv)
      (r : Result Response × World (Store sv)) : Type 0 where
    pub response : Response
    pub answer : r.0 ≡ ok response
    pub code : response.code ≡ 202
    pub quota_kept : r.1.store.counters ≡ before.counters
    pub queued :
        sv.queue.waiting r.1.store.queue
        ≡ join (sv.queue.waiting before.queue) ((job_id, payload) ∷ [])
    pub status : sv.hashes.hget (redis_job_key job_id) "status" r.1.store.hashes ≡ some "queued"
    pub owner :
        sv.hashes.hget (redis_job_key job_id) "tenantId" r.1.store.hashes ≡ some payload.tenant_id

  -- If the payload is valid, the time to live is positive and every call is answered, the
  -- submission replies 202, the job stands at the end of the queue and is recorded as queued for
  -- its tenant, and the reservation is kept.
  pub submit_reserved-IsAccepted :
      (tenant : AuthenticatedTenant) (r : JobRequest) (date_key : String) (s : Store sv)
      → 0 < config.job_ttl_seconds
      → payload_fits is_uuid
          (payload_of sv config is_uuid issues request job_id created_at tenant.principal r)
        ≡ true
      → IsAccepted
          (payload_of sv config is_uuid issues request job_id created_at tenant.principal r)
          s
          (submit_reserved sv config is_uuid issues request job_id created_at tenant r date_key
            (calm s))
  unfolding submit_reserved enqueue accept append_history_item
  submit_reserved-IsAccepted tenant r date_key s lives fits =
      let p = payload_of sv config is_uuid issues request job_id created_at tenant.principal r in
      let us = queued_updates sv config is_uuid issues request job_id created_at p in
      let kept = λ (f : String).
        hget-expire_own sv.hashes (redis_job_key job_id) f us config.job_ttl_seconds s.hashes
          lives in
      rw fits (record {
        response = _;
        answer = refl;
        code = refl;
        quota_kept = refl;
        queued = sv.queue.waiting-add _ _ _;
        status = kept "status";
        owner = kept "tenantId";
      })

  -- If the queue takes a valid job but its answer is lost, while all other calls are answered, the
  -- submission is undone while the job stays in the queue.
  pub submit_reserved-orphan :
      (tenant : AuthenticatedTenant) (r : JobRequest) (date_key message : String) (s : Store sv)
      → payload_fits is_uuid
          (payload_of sv config is_uuid issues request job_id created_at tenant.principal r)
        ≡ true
      → let after =
          submit_reserved sv config is_uuid issues request job_id created_at tenant r date_key
            (record {
              net =
                  delivered
                  ∷ delivered
                  ∷ delivered
                  ∷ delivered
                  ∷ delivered
                  ∷ unacknowledged message
                  ∷ [];
              store = s;
            }) in
        (sv.queue.waiting after.1.store.queue
          ≡ join (sv.queue.waiting s.queue) (
              (
                job_id,
                payload_of sv config is_uuid issues request job_id created_at tenant.principal r,
              )
              ∷ []))
        × IsUndone tenant.principal.tenant_id date_key s after
  unfolding submit_reserved enqueue undo append_history_item
  submit_reserved-orphan tenant r date_key message s fits = rw fits (
    sv.queue.waiting-add _ _ _,
    record {
      response = _;
      answer = refl;
      code = refl;
      quota = refl;
      no_history = unlisted tenant.principal.tenant_id _;
      no_job = λ f. hget-del_own sv.hashes (redis_job_key job_id) f _;
    },
  )
