-- ===== src/Runner.antt =====
-- services/runner: the program that compiles and runs one job inside its container.
pub mod Scan
pub mod Plans
pub mod Execute
pub mod Persist
