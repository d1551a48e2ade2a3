-- ===== src/Breaker.antt =====
-- The circuit breakers of the gateway, in memory and over Redis:
-- prism/internal/features/gateway/adapters/circuitbreaker, memory.go and redis.go.
pub mod Circuit
pub mod Memory
pub mod Shared
pub mod Slots
pub mod Trip
pub mod Diagram
pub mod Isolation
pub mod Race
mod Tests
