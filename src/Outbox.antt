-- ===== src/Outbox.antt =====
-- internal/outbox: the transactional outbox.
pub mod Publish
pub mod Dispatcher
