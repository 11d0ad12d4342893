-- ===== src/Token.antt =====
-- internal/services/token.go: the authorization_code and refresh_token grants.
pub mod Env
pub mod Dpop
pub mod Mint
pub mod Auth
pub mod Reuse
pub mod Refresh
pub mod Exchange
pub mod Frames
pub mod Keeps
pub mod Grants
pub mod Lasting
pub mod Histories
pub mod Revoked
pub mod Codes
pub mod Accepted
pub mod Rotation
pub mod Detection
pub mod Punishment
pub mod Redeemed
pub mod Granted
pub mod Scopes
pub mod Replay
pub mod Atomic
pub mod Failed
pub mod Examples
mod Tests
