-- ===== src/Sessions.antt =====
-- The logins of the authentication service: its tokens, and its sessions in Redis.
pub mod Manager
pub mod Names
pub mod Lifetime
pub mod Cleanup
pub mod Tokens
pub mod Logins
pub mod Requests
pub mod Trust
pub mod Access
pub mod Ending
mod Signing
mod AccessTests
mod Keeps
mod Tests
