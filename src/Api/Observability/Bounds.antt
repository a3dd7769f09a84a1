-- ===== src/Api/Observability/Bounds.antt =====
-- How the numbers of a snapshot of services/api/src/index.ts hang together.
use cloud_code_execution_eng.Prelude.{
  ℕ, ◌+◌, ◌*◌, ◌≤◌, ◌≡◌, refl, String, Bool, true, false, Option, none, some, List, [], ◌∷◌, length,
  keep, take, map, leb, or_zero, arith, eq_iff, length-keep, length-take,
}
use cloud_code_execution_eng.Effect.{Result, ok, err}
use cloud_code_execution_eng.Services.{Services}
use cloud_code_execution_eng.Api.Observability.{
  JobCounts, pending_jobs, SampledEvent, is_submitted, is_failed, is_terminal, ServiceCounts,
  get_worker_fleet_snapshot, parse_stream_id_ms, sampled, read_recent_audit_events,
  get_observability_snapshot, ObservabilitySnapshot,
}

keep-exclusive {ℓ} :
    {A : Type ℓ} (p q : A → Bool) (xs : List A)
    → ((x : A) → p x ≡ true → q x ≡ false)
    → length (keep p xs) + length (keep q xs) ≤ length xs
keep-exclusive p q [] apart = omega arith
keep-exclusive p q (x ∷ xs) apart = ground (arith, keep-exclusive p q xs apart, apart x)

length-map {ℓ} : {A B : Type ℓ} (f : A → B) (xs : List A) → length (map f xs) ≡ length xs
length-map f [] = refl
length-map f (x ∷ xs) = omega (arith, length-map f xs)

submitted-not_terminal : (e : SampledEvent) → is_submitted e ≡ true → is_terminal e ≡ false
submitted-not_terminal e h = told e.action h
  where
    told :
        (o : Option String)
        → is_submitted (record e { action = o }) ≡ true
        → is_terminal (record e { action = o }) ≡ false
    told none h = refl
    told (some action) h = let same = (eq_iff action "job_submitted").0 h in rw same refl

-- Every number of a snapshot is in the bounds that the others give.
pub record IsSound (sv : Services) (read_duration : Option String → Option ℕ)
    (window_seconds sample_limit fleet_capacity : ℕ) (counts : JobCounts)
    (s : ObservabilitySnapshot sv read_duration window_seconds sample_limit fleet_capacity)
    : Type 0 where
  pub failures : s.failed_jobs ≤ s.completed_jobs
  pub sample : s.submitted_jobs + s.completed_jobs ≤ sample_limit
  pub depth : s.queue_depth + s.active_jobs ≡ pending_jobs counts
  pub fleet : fleet_capacity ≤ s.worker_fleet.capacity

module _ (sv : Services) (read_duration : Option String → Option ℕ)
    (window_seconds sample_limit fleet_capacity : ℕ) where
  fleet-capacity :
      (described : Option (Result (Option ServiceCounts))) (active : ℕ)
      → fleet_capacity ≤ (get_worker_fleet_snapshot fleet_capacity described active).capacity
  unfolding get_worker_fleet_snapshot
  fleet-capacity none active = omega arith
  fleet-capacity (some (err message)) active = omega arith
  fleet-capacity (some (ok worker)) active = omega arith

  length-read_recent :
      (now_ms : ℕ) (entries : List (String × List String))
      → length (
          read_recent_audit_events sv read_duration window_seconds sample_limit fleet_capacity
            now_ms entries)
        ≤ sample_limit
  unfolding read_recent_audit_events
  length-read_recent now_ms entries =
      let newest = take sample_limit entries in
      let is_recent = λ (e : SampledEvent).
        leb now_ms (parse_stream_id_ms sv.to_number e.stream_id + window_seconds * 1000) in
      let kept = length-keep is_recent (map sampled newest) in
      let mapped = length-map sampled newest in
      let taken = length-take sample_limit entries in omega arith

  -- In every snapshot no more jobs failed than ended, no more were submitted and ended than the
  -- sample of the audit stream has events, the depth of the queue and the active jobs make up the
  -- pending jobs, and the fleet has at least the configured capacity.
  pub get_observability_snapshot-IsSound :
      (counts : JobCounts) (now_ms : ℕ) (entries : List (String × List String))
      (described : Option (Result (Option ServiceCounts)))
      → IsSound sv read_duration window_seconds sample_limit fleet_capacity counts (
          get_observability_snapshot sv read_duration window_seconds sample_limit fleet_capacity
            counts
            (read_recent_audit_events sv read_duration window_seconds sample_limit fleet_capacity
              now_ms entries)
            described)
  unfolding get_observability_snapshot pending_jobs
  get_observability_snapshot-IsSound counts now_ms entries described =
      let events =
        read_recent_audit_events sv read_duration window_seconds sample_limit fleet_capacity now_ms
          entries in
      let few = length-read_recent now_ms entries in
      let apart = keep-exclusive is_submitted is_terminal events submitted-not_terminal in
      record {
        failures = length-keep is_failed (keep is_terminal events);
        sample = omega arith;
        depth = omega arith;
        fleet = fleet-capacity described (or_zero counts.active);
      }
