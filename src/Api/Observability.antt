-- ===== src/Api/Observability.antt =====
-- services/api/src/index.ts: the numbers of the queue, the sample of the audit stream and the
-- snapshot for /v1/observability/summary and /metrics. What a metadata text says of a duration is a
-- parameter: JSON's value of `durationMs`, if it is a number that is not negative.
pub mod Bounds
use Prim.Native.String
use Prim.Native.Char.{code}
use cloud_code_execution_eng.Prelude.{
  ℕ, ◌+◌, ◌-◌, ◌*◌, String, Bool, true, false, ◌||◌, not, Option, none, some, List, [], ◌∷◌, length,
  keep, take, map, max, ltb, leb, ◌==◌, ◌===◌, if◌then◌else◌, or_zero, or_else,
}
use cloud_code_execution_eng.Effect.{Result, ok, err}
use cloud_code_execution_eng.Tenants.Registry.{lookup, set_entry}
use cloud_code_execution_eng.Services.{Services}

-- What `getJobCounts` says; a count that is missing is 0.
pub record JobCounts : Type 0 where
  pub waiting : Option ℕ
  pub active : Option ℕ
  pub delayed : Option ℕ
  pub paused : Option ℕ
  pub prioritized : Option ℕ
  pub waiting_children : Option ℕ

unfoldable pub pending_jobs : JobCounts → ℕ
pending_jobs c =
    or_zero c.waiting
    + or_zero c.active
    + or_zero c.delayed
    + or_zero c.paused
    + or_zero c.prioritized
    + or_zero c.waiting_children

unfoldable pub scale_signal : ℕ → ℕ → ℕ
scale_signal target pending = if ltb 0 pending then max pending (max 1 target + 1) else 0

-- `fields` holds names and values in turn.
unfoldable pub stream_fields_to_object : List String → List (String × String)
stream_fields_to_object fields = read fields []
  where
    stored : String → String → List (String × String) → List (String × String)
    stored key value m = if key === "" then m else set_entry key value m

    read : List String → List (String × String) → List (String × String)
    read [] m = m
    read (key ∷ []) m = stored key "" m
    read (key ∷ value ∷ fields) m = read fields (stored key value m)

-- The text before the first `-`.
abbrev before_dash : String → String
before_dash String.[] = ""
before_dash (String.◌∷◌ c s) =
    let rest = before_dash s in if code c == b'-' then "" else String.◌∷◌ c rest

unfoldable pub parse_stream_id_ms : (String → Option ℕ) → String → ℕ
parse_stream_id_ms to_number stream_id = or_zero (to_number (before_dash stream_id))

pub record SampledEvent : Type 0 where
  pub stream_id : String
  pub action : Option String
  pub metadata : Option String

abbrev is_action : String → SampledEvent → Bool
is_action name e = told e.action
  where
    told : Option String → Bool
    told none = false
    told (some action) = action === name

abbrev pub is_submitted : SampledEvent → Bool
is_submitted = is_action "job_submitted"

abbrev pub is_failed : SampledEvent → Bool
is_failed = is_action "job_failed"

abbrev pub is_terminal : SampledEvent → Bool
is_terminal e = is_action "job_succeeded" e || is_failed e

pub record WorkerFleet : Type 0 where
  pub desired : ℕ
  pub running : ℕ
  pub pending : ℕ
  pub capacity : ℕ

-- The counts of the worker's service in ECS.
pub record ServiceCounts : Type 0 where
  pub desired : Option ℕ
  pub running : Option ℕ
  pub pending : Option ℕ

-- `services?.[0]`, whose counts are then all missing if there is none.
abbrev counts_of : Option ServiceCounts → ServiceCounts
counts_of none = record { desired = none; running = none; pending = none }
counts_of (some c) = c

-- Without a cluster the fleet is this process.
unfoldable pub get_worker_fleet_snapshot :
    ℕ → Option (Result (Option ServiceCounts)) → ℕ → WorkerFleet
get_worker_fleet_snapshot capacity none active_jobs = record {
  desired = if ltb 0 active_jobs then 1 else 0;
  running = if ltb 0 active_jobs then 1 else 0;
  pending = 0;
  capacity = capacity;
}
get_worker_fleet_snapshot capacity (some (err message)) active_jobs = record {
  desired = 0;
  running = 0;
  pending = 0;
  capacity = capacity;
}
get_worker_fleet_snapshot capacity (some (ok worker)) active_jobs =
    let c = counts_of worker in
    record {
      desired = or_zero c.desired;
      running = or_zero c.running;
      pending = or_zero c.pending;
      capacity = max (max capacity (or_zero c.desired)) (max (or_zero c.running) 1);
    }

abbrev pub sampled : String × List String → SampledEvent
sampled (id, fields) =
    let m = stream_fields_to_object fields in
    record { stream_id = id; action = lookup "action" m; metadata = lookup "metadata" m }

module _ (sv : Services) (read_duration : Option String → Option ℕ)
    (window_seconds sample_limit fleet_capacity : ℕ) where
  pub record ObservabilitySnapshot : Type 0 where
    pub jobs_per_second : sv.floats.F
    pub average_runtime_ms : sv.floats.F
    pub failure_rate : sv.floats.F
    pub queue_depth : ℕ
    pub active_jobs : ℕ
    pub worker_utilization : sv.floats.F
    pub submitted_jobs : ℕ
    pub completed_jobs : ℕ
    pub failed_jobs : ℕ
    pub worker_fleet : WorkerFleet

  -- The entries of the stream are given, the newest first.
  unfoldable pub read_recent_audit_events : ℕ → List (String × List String) → List SampledEvent
  read_recent_audit_events now_ms entries =
      keep (λ e. leb now_ms (parse_stream_id_ms sv.to_number e.stream_id + window_seconds * 1000))
        (map sampled (take sample_limit entries))

  abbrev durations : List SampledEvent → List ℕ
  durations [] = []
  durations (e ∷ events) = listed (read_duration e.metadata) (durations events)
    where
      listed : Option ℕ → List ℕ → List ℕ
      listed none ds = ds
      listed (some d) ds = d ∷ ds

  abbrev sum : List ℕ → ℕ
  sum [] = 0
  sum (d ∷ ds) = d + sum ds

  abbrev ratio : ℕ → ℕ → sv.floats.F
  ratio a b = sv.floats.div (sv.floats.num a) (sv.floats.num b)

  abbrev average : List ℕ → sv.floats.F
  average ds = if ltb 0 (length ds) then ratio (sum ds) (length ds) else sv.floats.num 0

  unfoldable pub get_observability_snapshot :
      JobCounts → List SampledEvent → Option (Result (Option ServiceCounts)) → ObservabilitySnapshot
  get_observability_snapshot counts events described =
      let active = or_zero counts.active in
      let submitted = length (keep is_submitted events) in
      let terminal = keep is_terminal events in
      let failed = length (keep is_failed terminal) in
      let fleet = get_worker_fleet_snapshot fleet_capacity described active in
      record {
        jobs_per_second = sv.floats.round6 (ratio submitted window_seconds);
        average_runtime_ms = sv.floats.round2 (average (durations terminal));
        failure_rate =
            if ltb 0 (length terminal)
            then sv.floats.round6 (ratio failed (length terminal))
            else sv.floats.num 0;
        queue_depth =
            or_zero counts.waiting
            + or_zero counts.delayed
            + or_zero counts.paused
            + or_zero counts.prioritized
            + or_zero counts.waiting_children;
        active_jobs = active;
        worker_utilization = sv.floats.round6 (ratio active (max fleet.capacity 1));
        submitted_jobs = submitted;
        completed_jobs = length terminal;
        failed_jobs = failed;
        worker_fleet = fleet;
      }
