-- ===== src/Payout.antt =====
-- internal/payout: the rail interface, the router, and the mock bank's rail.
pub mod Rail
pub mod MockBank
