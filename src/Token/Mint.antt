-- ===== src/Token/Mint.antt =====
-- internal/services/mint_issuer.go, the request that internal/services/token.go builds for it, and
-- the agent claims of internal/services/agent_identity.go for a client without a delegation chain.
use authserver.Common.{
  String, ℕ, ◌-◌, ◌/◌, List, [], ◌∷◌, Option, none, some, ◌==◌, ◌&&◌, not, eqb, is_empty,
  if◌then◌else◌,
}
use authserver.Domain.Errors.{internal}
use authserver.Domain.Clients.{Client}
use authserver.Domain.Entities.{Issuance, set_agent_chain}
use authserver.Scope.{fields, join}
use authserver.Store.Monad.{M, ◌>>=◌, ◌>>◌, pure, require, reach, draw, issuer, signing_key, sign}
use authserver.Store.Revocations.{insert}
use authserver.Token.Env.{Env, Target, Claims}

pub record AgentClaims : Type 0 where
  pub agent_id : String
  pub agent_chain : List String

-- `attachClaimsForClient` without an act claim: an agent client is named, and has no chain.
abbrev pub attach_claims : Client → AgentClaims
attach_claims c = record { agent_id = if c.is_agent then c.id else ""; agent_chain = [] }

unfoldable pub lift_claims : AgentClaims → Option AgentClaims
lift_claims a = if a.agent_id == "" && is_empty a.agent_chain then none else some a

-- `extractAgentIdentityClaimsForClient`, with a nil act map.
unfoldable pub agent_claims : Env → Client → Option AgentClaims
unfolding lift_claims
agent_claims e c = if e.has_agent_identity then lift_claims (attach_claims c) else none

abbrev pub agent_id_of : Option AgentClaims → String
agent_id_of none = ""
agent_id_of (some a) = a.agent_id

abbrev pub agent_chain_of : Option AgentClaims → List String
agent_chain_of none = []
agent_chain_of (some a) = a.agent_chain

pub record IssueRequest : Type 0 where
  pub resource : Option Target
  pub subject_user_id : String
  pub actor_client_id : String
  pub scopes : List String
  pub agent_identity : Option AgentClaims
  pub dpop_jkt : String
  pub consent_client_id : String
  pub parent_jti : String
  pub audience : List String
  pub not_before : ℕ
  pub expiry : ℕ

pub record IssueResponse : Type 0 where
  pub access_token : String
  pub token_type : String
  pub expires_in : ℕ
  pub issuance_id : String

abbrev pub seconds : ℕ → ℕ
seconds t = t / 1000000000

unfoldable pub resource_audience : Option Target → String → List String
resource_audience none name = name ∷ []
resource_audience (some t) name = if t.uri == "" then name ∷ [] else t.uri ∷ []

unfoldable pub mint_audience : IssueRequest → String → List String
unfolding resource_audience
mint_audience req name =
    if is_empty req.audience then resource_audience req.resource name else req.audience

unfoldable pub claims_of : Env → IssueRequest → String → Claims
unfolding mint_audience
claims_of e req jti = record {
  issuer = e.issuer_name;
  subject = req.subject_user_id;
  audience = mint_audience req e.issuer_name;
  client_id = req.actor_client_id;
  scope = join req.scopes;
  jti = jti;
  issued_at = seconds e.now;
  expiry = seconds req.expiry;
  not_before = seconds (if eqb req.not_before 0 then e.now else req.not_before);
  agent_id = agent_id_of req.agent_identity;
  agent_chain = agent_chain_of req.agent_identity;
  cnf_jkt = if req.dpop_jkt == "" then none else some req.dpop_jkt;
}

unfoldable pub issuance_of : Env → IssueRequest → Target → String → Issuance
issuance_of e req t jti = set_agent_chain (agent_chain_of req.agent_identity) (record {
  id = jti;
  subject_user_id = req.subject_user_id;
  client_id = req.actor_client_id;
  resource_id = t.id;
  scopes = req.scopes;
  issued_at = e.now;
  expires_at = req.expiry;
  revoked_at = none;
  jti = jti;
  dpop_jkt = req.dpop_jkt;
  agent_id = agent_id_of req.agent_identity;
  agent_chain = [];
  consent_client_id = req.consent_client_id;
  parent_jti = req.parent_jti;
})

-- The issuance row is written for a resolved resource only.
unfoldable pub write_issuance : Env → IssueRequest → String → Option Target → M (Unit {0})
unfolding issuance_of
write_issuance e req jti none = pure tt
write_issuance e req jti (some t) = insert e.outside (issuance_of e req t jti)

-- `MintIssuer.Issue`.
unfoldable pub issue : Env → IssueRequest → M IssueResponse
unfolding write_issuance claims_of
issue e req = do
  require (not (eqb req.expiry 0)) internal
  reach e.outside issuer
  reach e.outside signing_key
  jti ← draw e.outside
  reach e.outside sign
  write_issuance e req jti req.resource
  pure (record {
    access_token = e.sign_claims (claims_of e req jti);
    token_type = if req.dpop_jkt == "" then "Bearer" else "DPoP";
    expires_in = seconds (req.expiry - e.now);
    issuance_id = jti;
  })

-- `mintParams`.
pub record MintParams : Type 0 where
  pub user_id : String
  pub client_id : String
  pub scope : String
  pub resource : String
  pub dpop_jkt : String
  pub agent_identity : Option AgentClaims

unfoldable pub resolved : Option (String → Option Target) → String → Option Target
resolved none uri = none
resolved (some resolve) uri = if uri == "" then none else resolve uri

-- `buildMintRequest`: the audience is the granted resource, if there is one.
unfoldable pub build_mint_request : Env → ℕ → MintParams → IssueRequest
unfolding resolved
build_mint_request e expiry p = record {
  resource = resolved e.resolve p.resource;
  subject_user_id = p.user_id;
  actor_client_id = p.client_id;
  scopes = fields p.scope;
  agent_identity = p.agent_identity;
  dpop_jkt = p.dpop_jkt;
  consent_client_id = p.client_id;
  parent_jti = "";
  audience = if p.resource == "" then [] else p.resource ∷ [];
  not_before = e.now;
  expiry = expiry;
}
