-- ===== src/Api/Metrics.antt =====
-- services/api/src/index.ts: prometheusNumber and renderPrometheusMetrics, the text of GET /metrics.
-- How a float is written, `String(value)` or "0" if it is not finite, is a parameter.
pub mod Reading
use Prim.Native.String.{◌++◌}
use cloud_code_execution_eng.Prelude.{ℕ, String, Option, List, [], ◌∷◌, show}
use cloud_code_execution_eng.Services.{Services}
use cloud_code_execution_eng.Api.Observability.{ObservabilitySnapshot}

-- `lines.join("\n")`.
abbrev pub join_lines : List String → String
join_lines [] = ""
join_lines (line ∷ []) = line
join_lines (line ∷ next ∷ lines) = line ++ ("\n" ++ join_lines (next ∷ lines))

-- What three lines of the text say.
pub record Gauge : Type 0 where
  pub name : String
  pub help : String
  pub value : String

abbrev pub gauge_lines : List Gauge → List String
gauge_lines [] = "" ∷ []
gauge_lines (g ∷ gs) =
    ("# HELP " ++ (g.name ++ (" " ++ g.help)))
    ∷ ("# TYPE " ++ (g.name ++ " gauge"))
    ∷ (g.name ++ (" " ++ g.value))
    ∷ gauge_lines gs

module _ (sv : Services) (read_duration : Option String → Option ℕ)
    (window_seconds sample_limit fleet_capacity : ℕ)
    (prometheus_number : sv.floats.F → String) where
  abbrev pub gauges :
      ObservabilitySnapshot sv read_duration window_seconds sample_limit fleet_capacity → List Gauge
  gauges s =
      (record {
        name = "ccee_jobs_per_second";
        help = "Submitted jobs per second over the configured window.";
        value = prometheus_number s.jobs_per_second;
      })
      ∷ (record {
        name = "ccee_average_runtime_ms";
        help = "Average terminal job runtime in milliseconds over the configured window.";
        value = prometheus_number s.average_runtime_ms;
      })
      ∷ (record {
        name = "ccee_failure_rate";
        help = "Ratio of failed terminal jobs over the configured window.";
        value = prometheus_number s.failure_rate;
      })
      ∷ (record {
        name = "ccee_queue_depth";
        help = "Pending queue depth.";
        value = show s.queue_depth;
      })
      ∷ (record {
        name = "ccee_worker_utilization";
        help = "Active jobs divided by configured or observed worker capacity.";
        value = prometheus_number s.worker_utilization;
      })
      ∷ (record {
        name = "ccee_worker_running";
        help = "ECS or local worker tasks currently running.";
        value = show s.worker_fleet.running;
      })
      ∷ (record {
        name = "ccee_worker_desired";
        help = "ECS or local worker desired count.";
        value = show s.worker_fleet.desired;
      })
      ∷ (record {
        name = "ccee_worker_pending";
        help = "ECS worker tasks pending.";
        value = show s.worker_fleet.pending;
      })
      ∷ []

  unfoldable pub render_prometheus_metrics :
      ObservabilitySnapshot sv read_duration window_seconds sample_limit fleet_capacity → String
  render_prometheus_metrics s = join_lines (gauge_lines (gauges s))
