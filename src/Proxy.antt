-- ===== src/Proxy.antt =====
-- internal/proxy: what the API in front of Daytona decides.
pub mod Gate
pub mod Json
pub mod Text
pub mod CreatePolicy
pub mod Owner
pub mod Ports
pub mod Create
pub mod Start
pub mod Routes
pub mod Scrub
pub mod Bulk
pub mod Snapshots
pub mod Seal
pub mod PathGuard
