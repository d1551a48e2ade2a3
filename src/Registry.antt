-- ===== src/Registry.antt =====
-- The registry of services: prism/internal/features/discovery/service_registry.go.
pub mod Service
pub mod Loading
pub mod Persistence
mod Tests
