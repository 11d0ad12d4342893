-- ===== src/Token/Env.antt =====
-- What the token services are wired with: the clock and the failing calls of `Outside`, the code of
-- other packages as functions, and the configuration that a request reads.
use authserver.Common.{String, ℕ, Bool, true, false, List, Option}
use authserver.Domain.Clients.{Client}
use authserver.Domain.Users.{User}
use authserver.Store.Monad.{World, Outside, M, AuditEvent, record_event, ok}

-- A parsed URL: the parts that are compared on their own, and the rest as it prints.
pub record Url : Type 0 where
  pub scheme : String
  pub host : String
  pub path : String
  pub rest : String

-- What `UserStore.GetByID` returns.
pub data UserLookup : Type 0 where
  found : User → UserLookup
  not_found nil_user failed : UserLookup

-- What the JOSE library reads of a compact JWS, if it parses with a supported algorithm.
pub record Proof : Type 0 where
  pub headers : ℕ
  pub typ : String
  -- The thumbprint of the public key in the header, if there is such a key.
  pub jkt : Option String
  pub signature_holds : Bool
  pub jti : String
  pub htm : String
  pub htu : String
  pub iat : ℕ
  pub nonce : String
  pub ath : String

pub record DpopConfig : Type 0 where
  pub enabled : Bool
  pub require_nonce : Bool
  pub proof_lifetime : ℕ

-- The claims that are signed.
pub record Claims : Type 0 where
  pub issuer : String
  pub subject : String
  pub audience : List String
  pub client_id : String
  pub scope : String
  pub jti : String
  pub issued_at : ℕ
  pub expiry : ℕ
  pub not_before : ℕ
  pub agent_id : String
  pub agent_chain : List String
  pub cnf_jkt : Option String

-- A resource of the registry, as far as these grants read it.
pub record Target : Type 0 where
  pub id : String
  pub uri : String

pub record Env : Type 0 where
  pub outside : Outside
  pub open outside use *
  -- `crypto.HashSHA256`, `crypto.ComputeS256Challenge` and `crypto.CompareClientSecret`.
  pub hash : String → String
  pub s256 : String → String
  pub secret_matches : String → String → Bool
  -- net/url and the case folding of the standard library.
  pub parse_url : String → Option Url
  pub print_url : Url → String
  pub lower : String → String
  pub equal_fold : String → String → Bool
  -- The JOSE library: a parsed proof, and a signed token.
  pub parse_proof : String → Option Proof
  pub sign_claims : Claims → String
  -- The client, user and resource stores; the latter two are optional.
  pub client : String → Option Client
  pub users : Option (String → UserLookup)
  pub resolve : Option (String → Option Target)
  pub issuer_name : String
  -- The optional ports that are wired.
  pub has_revocation : Bool
  pub has_audit : Bool
  pub has_transactions : Bool
  pub has_agent_identity : Bool
  pub dpop : Option DpopConfig
  -- The token lifetimes.
  pub access_expiry : ℕ
  pub refresh_expiry : ℕ
  -- What other requests do to the database while this one mints its token.
  pub others : World → World

-- An event is recorded where an auditor is wired.
unfoldable pub audited : Env → AuditEvent → M (Unit {0})
audited e ev w = elim e.has_audit [ true ↦ record_event ev w | false ↦ ok tt w ]
