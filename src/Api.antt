-- ===== src/Api.antt =====
-- services/api: authenticates tenants, limits their rates, and takes, lists and shows their jobs.
pub mod Http
pub mod RateLimit
pub mod Auth
pub mod Submit
pub mod Jobs
pub mod Analyze
pub mod Burst
pub mod Runbook
pub mod Hooks
pub mod Settings
pub mod Headers
pub mod Origins
pub mod Config
pub mod Overview
pub mod Observability
pub mod QueueMetric
pub mod Metrics
pub mod AdminMetrics
pub mod Events
pub mod Read
pub mod Logs
pub mod Analysis
