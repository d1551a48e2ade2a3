-- ===== src/Keys.antt =====
-- API keys: prism/internal/domain/api_key.go.
pub mod ApiKey
pub mod Lookup
pub mod Params
pub mod Lifecycle
mod Tests
