-- ===== src/Authorization.antt =====
-- The authorization endpoint and the consent that it waits for: internal/services/authorize.go,
-- consent.go and resource_registry.go.
pub mod Registry
pub mod Start
pub mod Consent
pub mod Steps
pub mod Granting
pub mod Refused
pub mod Started
mod Tests
