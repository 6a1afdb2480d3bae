-- ===== src/Tests.antt =====
-- Runs of the models at concrete data.
pub mod Data
pub mod Store
pub mod Driver
pub mod Plan
pub mod Fins
pub mod FinsCycle
pub mod Runtime
pub mod Server
