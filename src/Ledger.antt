-- ===== src/Ledger.antt =====
-- internal/ledger: double-entry bookkeeping.
pub mod Validate
pub mod Posting
