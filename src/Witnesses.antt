-- ===== src/Witnesses.antt =====
-- Concrete services and the theorems applied to concrete inputs.
pub mod Setting
pub mod Pure
pub mod Quotas
pub mod Runs
pub mod Work
pub mod Calls
pub mod Insight
pub mod Tools
pub mod Replays
pub mod Journeys
