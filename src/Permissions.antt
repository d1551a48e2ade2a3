-- ===== src/Permissions.antt =====
-- The permission service of aegis: its data and operations, its answers, its cache, its defaults.
pub mod Service
pub mod Defaults
pub mod Answers
pub mod Creation
pub mod Keys
pub mod Coherence
pub mod Freshness
mod Tests
