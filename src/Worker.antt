-- ===== src/Worker.antt =====
-- services/worker: takes jobs from the queue, runs or dispatches them, and records what becomes of
-- them.
pub mod Config
pub mod Records
pub mod Endings
pub mod Ecs
pub mod Local
pub mod Process
pub mod Failures
pub mod Lifecycle
pub mod Attempts
