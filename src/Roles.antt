-- ===== src/Roles.antt =====
-- Roles of users within tenants: prism/internal/domain/roles.go.
pub mod RoleMap
pub mod Permission
mod Tests
