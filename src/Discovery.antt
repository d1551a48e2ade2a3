-- ===== src/Discovery.antt =====
-- The discovery of services in memory: prism/internal/features/discovery/adapters/provider/local.go.
pub mod Local
pub mod Watch
pub mod Index
pub mod Registration
pub mod Entries
pub mod Sweep
pub mod Expiry
pub mod Operations
mod Tests
