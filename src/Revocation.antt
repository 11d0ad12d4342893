-- ===== src/Revocation.antt =====
-- internal/services/revocation.go: the revocation endpoint of RFC 7009.
pub mod Verify
pub mod Service
pub mod Laws
mod Tests
