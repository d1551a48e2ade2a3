-- ===== src/Authz.antt =====
-- The authorization library of the directory authz.
pub mod Cache
pub mod Eviction
pub mod CacheReads
pub mod Growth
pub mod Cleanup
pub mod Value
pub mod Hash
pub mod Agent
pub mod Decide
pub mod Consult
pub mod Answers
pub mod InMemory
pub mod Authorization
pub mod Webhook
pub mod Middleware
mod CacheTests
mod AgentTests
mod WebhookTests
