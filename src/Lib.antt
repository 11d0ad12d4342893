-- ===== src/Lib.antt =====
-- A model of the OAuth authorization server of this repository, and the theorems that hold of it.
--
-- The server answers requests at an authorization endpoint, where a user consents, and at a token
-- and a revocation endpoint, over one database; an administrator registers the resources and the
-- fronting links between them. The services (internal/services) check a request against the stores
-- (internal/adapters/sqlite), the client and session entities (internal/domain) and the
-- cryptographic helpers (internal/crypto).
--
-- Files:
--   Common            shared names, Boolean tests on numbers, lists, sets of texts
--   Scope             internal/domain/scope/matching.go; its children hold the set laws
--   Domain            internal/domain: errors, clients, their redirect URIs, sessions, families,
--                     issuances, users, resources, fronting links, consent grants
--   Pkce              internal/crypto/pkce.go
--   Store             internal/adapters/sqlite: a table is a list of rows, a statement is a step of
--                     the monad of Store/Monad
--   Token             internal/services/token.go, mint_issuer.go and internal/crypto/dpop.go: Env is
--                     what the service is wired with, Auth, Dpop, Mint and Reuse are its helpers,
--                     Refresh and Exchange are the two grants, and the others hold proofs
--   Revocation        internal/services/revocation.go and the verification of access tokens
--   Lockout           api/shared/authlockout.go
--   Fronting          internal/services/fronting.go: Cycle is the search for a cycle, Rules are the
--                     checks, Service the operations; Walks is the graph of the links, and the
--                     others hold proofs
--   ResourceAdmin     internal/services/resource_admin.go: Service and Policies are the operations
--   Authorization     internal/services/authorize.go, consent.go and resource_registry.go: Registry,
--                     Start and Consent are the code, and the others hold proofs
--   TokenExchange     internal/services/token_exchange.go: Gates has the helpers on callers and
--                     scopes, and the scope checks of the two fronted paths
--
-- The monad. A step takes the database (World) and ends with a value or an error, and with the
-- database as it then is, since what was written before an error stays written. Each call of a port
-- is named (Call), and `fails` says which calls fail: a failed call is the error `internal`, which
-- stands for every error that wraps no sentinel of internal/domain/errors.go. The two grants are
-- written statement by statement in the order of the source; a transaction is a step that is taken
-- back when its body fails. While a refresh mints its token, other requests may run: this is the
-- function `others` of Env, which the theorems on histories take to be a history itself.
--
-- Parameters. Hashing, net/url, the case folding of strings, the JOSE library, random texts and the
-- clock are functions and values of Env and Outside; nothing is assumed of them but what a theorem
-- names. A time is a natural number of nanoseconds, so that a time claim below zero is out of the
-- model. A duration keeps the bounds of 64 bits where the freshness of a DPoP proof is tested; other
-- sums of times, such as the expiry of an access token with its leeway, have no bound, and times are
-- compared as numbers, where SQLite compares texts. The order in which Go visits a map is a
-- parameter of Lockout; scope sets are lists without repetition, and their laws do not look at the
-- order.
--
-- Fuel. The search for a cycle has one round of fuel for each link and one more, and it never runs
-- out, since a round takes one node from the stack and a node is stacked only when a link leads to it
-- for the first time. Every other recursion is on a list or a text.
--
-- Not modelled: the HTTP handlers, metrics, spans and log lines; the administration of clients, users
-- and grants; the rest of token exchange, client credentials, introspection and client registration;
-- the PostgreSQL stores; purging and some listings in the stores; and the delegation chain of a token.
pub mod Common
pub mod Scope
pub mod Domain
pub mod Pkce
pub mod Store
pub mod Token
pub mod Revocation
pub mod Lockout
pub mod Fronting
pub mod ResourceAdmin
pub mod Authorization
pub mod TokenExchange
