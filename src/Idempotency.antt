-- ===== src/Idempotency.antt =====
-- internal/idempotency: a request with an Idempotency-Key is answered once.
pub mod Store
pub mod CachedStore
pub mod Middleware
