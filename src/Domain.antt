-- ===== src/Domain.antt =====
-- internal/domain: the entities of the server and the errors that its services return.
pub mod Errors
pub mod Clients
pub mod Resources
pub mod FrontingLinks
pub mod Entities
pub mod Consents
pub mod Users
pub mod Redirects
