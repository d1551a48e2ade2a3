-- ===== src/Sync.antt =====
-- The stream of users' roles and revoked tokens from aegis to the gateways.
pub mod Server
pub mod Client
pub mod Pages
pub mod Steps
pub mod Snapshot
pub mod Marker
pub mod Revocation
pub mod Roles
pub mod Backoff
mod Tests
