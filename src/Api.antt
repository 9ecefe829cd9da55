-- ===== src/Api.antt =====
-- internal/api: the handlers of payment intents.
pub mod View
pub mod Handlers
