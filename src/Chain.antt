-- ===== src/Chain.antt =====
-- internal/chain: the watcher of USDC deposits.
pub mod Parser
pub mod References
pub mod Deposits
pub mod Watcher
