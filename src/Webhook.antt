-- ===== src/Webhook.antt =====
-- internal/webhook: the signature of an event, and its delivery to a merchant.
pub mod Hex
pub mod Header
pub mod Sign
pub mod Sender
