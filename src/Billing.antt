-- ===== src/Billing.antt =====
-- internal/billing: what is charged, when, and under which nonce.
pub mod Price
pub mod Session
pub mod Events
pub mod Generator
pub mod Reserved
pub mod Signer
