-- ===== src/Limits.antt =====
-- The rate limits of the gateway: prism/internal/features/ratelimit.
pub mod Ring
pub mod Walk
pub mod Recent
pub mod Service
pub mod Update
pub mod Check
pub mod Creation
pub mod Changes
pub mod Index
pub mod Adapting
pub mod Operations
pub mod Limiter
pub mod Window
pub mod Admission
pub mod Rates
mod Tests
mod LimiterTests
