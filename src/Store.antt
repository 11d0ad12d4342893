-- ===== src/Store.antt =====
-- internal/adapters/sqlite: the stores of the server over one database.
pub mod Table
pub mod Monad
pub mod Sorting
pub mod Sessions
pub mod Links
pub mod Resources
pub mod Consents
pub mod Tokens
pub mod Revocations
