-- ===== src/ResourceAdmin.antt =====
-- internal/services/resource_admin.go: the administration of resources.
pub mod Service
pub mod Policies
pub mod Rows
pub mod Moves
pub mod Hooks
pub mod Stored
pub mod Peeks
pub mod Kept
pub mod Administered
mod Tests
