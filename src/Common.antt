-- ===== src/Common.antt =====
-- packages/common/src/index.ts: what the API, the worker and the runner share.
pub mod Keys
pub mod Jobs
pub mod Tiers
pub mod Cost
pub mod Schema
pub mod Failure
pub mod Analysis
pub mod Env
pub mod Catalog
