-- ===== src/Routing.antt =====
-- The routing table of the gateway: prism/internal/features/gateway/routing.go.
pub mod Pattern
pub mod Matching
pub mod Table
pub mod Order
pub mod Updates
pub mod Lookup
pub mod Services
mod Tests
