-- ===== src/SolanaPay.antt =====
-- internal/solanapay: amounts in display units, transfer-request URLs, and sealed reference keys.
pub mod Amount
pub mod Url
