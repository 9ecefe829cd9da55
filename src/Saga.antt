-- ===== src/Saga.antt =====
-- internal/saga and internal/saga/steps: the settlement saga and its orchestrator.
pub mod Backoff
pub mod Claim
pub mod Runner
pub mod Steps
