-- ===== src/Settler.antt =====
-- internal/settler: draining the voucher queue into settlement transactions.
pub mod Stop
pub mod Statuses
pub mod Pending
pub mod Sweep
pub mod Round
pub mod Run
