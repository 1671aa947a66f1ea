-- ===== src/Backlog.antt =====
-- internal/voucher/aggregate.go: one (user, provider)'s outstanding vouchers, in the settle queue
-- and in the held list, and the split of them against a balance.
mod Defs
pub mod Summary
pub mod Operator
pub mod Conserves
pub mod Prefix
pub mod Stops
pub mod Index
pub mod Attempts
unfoldable pub use Defs.*
