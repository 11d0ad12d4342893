-- ===== src/TokenExchange.antt =====
-- internal/services/token_exchange.go: the rules for scopes and callers of a token exchange.
pub mod Gates
pub mod Defaults
pub mod Covered
mod Tests
