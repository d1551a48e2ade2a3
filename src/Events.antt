-- ===== src/Events.antt =====
-- The event buses: aegis/internal/grpc/eventbus.go.
pub mod Bus
pub mod Subscribers
pub mod Delivery
mod Tests
