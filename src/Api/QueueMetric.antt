-- ===== src/Api/QueueMetric.antt =====
-- services/api/src/index.ts: publishQueueDepthMetric, and what /health/summary shows of the queue.
-- CloudWatch is a parameter; an error is logged and goes no further. The counts of failed and of
-- completed jobs, which the summary shows too, are left out.
use cloud_code_execution_eng.Prelude.{ℕ, String, List, [], ◌∷◌}
use cloud_code_execution_eng.Effect.{Exec, try_catch, pure, ◌>>=◌}
use cloud_code_execution_eng.Api.Observability.{JobCounts, pending_jobs, scale_signal}

pub record MetricConfig : Type 0 where
  pub namespace : String
  pub metric_name : String
  pub scale_metric_name : String
  pub service_name : String
  pub job_queue_name : String
  pub queue_depth_target : ℕ

pub record MetricDatum : Type 0 where
  pub metric_name : String
  pub dimensions : List (String × String)
  pub unit : String
  pub value : ℕ

module _ (config : MetricConfig) where
  abbrev pub datum : String → ℕ → MetricDatum
  datum metric_name value = record {
    metric_name = metric_name;
    dimensions = ("QueueName", config.job_queue_name) ∷ ("Service", config.service_name) ∷ [];
    unit = "Count";
    value = value;
  }

  unfoldable pub metric_data : JobCounts → List MetricDatum
  metric_data counts =
      let pending = pending_jobs counts in
      datum config.metric_name pending
      ∷ datum config.scale_metric_name (scale_signal config.queue_depth_target pending)
      ∷ []

  -- `get_job_counts` asks the queue and `put_metric_data` CloudWatch.
  unfoldable pub publish_queue_depth_metric :
      {S : Type 0}
      → Exec S JobCounts
      → (String → List MetricDatum → Exec S (Unit {0}))
      → Exec S (Unit {0})
  publish_queue_depth_metric get_job_counts put_metric_data =
      try_catch (do counts ← get_job_counts; put_metric_data config.namespace (metric_data counts))
        (λ message. pure tt)

pub record HealthSummary : Type 0 where
  pub status : String
  pub service : String
  pub pending : ℕ
  pub counts : JobCounts
  pub queue_depth_target : ℕ
  pub updated_at : String

unfoldable pub health_summary : ℕ → JobCounts → String → HealthSummary
health_summary queue_depth_target counts now = record {
  status = "ok";
  service = "api";
  pending = pending_jobs counts;
  counts = counts;
  queue_depth_target = queue_depth_target;
  updated_at = now;
}
