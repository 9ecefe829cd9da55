-- ===== src/Saga/Steps.antt =====
-- internal/saga/steps: the four settlement steps.
pub mod Mid
pub mod Names
pub mod Queries
pub mod CreditDeposit
pub mod TriggerPayout
pub mod ApplyPayoutResult
pub mod EmitCompleted
