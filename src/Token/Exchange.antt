-- ===== src/Token/Exchange.antt =====
-- The authorization_code grant: `exchangeCode` of internal/services/token.go.
use authserver.Common.{String, ℕ, ◌+◌, Bool, true, false, none, some, ◌==◌, not, if◌then◌else◌}
use authserver.Domain.Errors.{internal, invalid_grant, invalid_client, invalid_pkce, code_consumed}
use authserver.Domain.Clients.{Client, has_grant_type}
use authserver.Domain.Entities.{Session, Family, active, session_is_expired}
use authserver.Pkce.{verify_s256, is_verified}
use authserver.Store.Monad.{
  World, M, Run, ok, err, ◌>>=◌, ◌>>◌, pure, raise, require, reach, draw, token_config, begin_tx,
  commit_tx, token_issued, token_issue_denied,
}
use authserver.Store.Sessions.{Redeemed, fresh, used, refused, consume_by_code_hash}
use authserver.Store.Tokens.{insert_family}
use authserver.Token.Env.{Env, audited}
use authserver.Token.Dpop.{bind_dpop}
use authserver.Token.Mint.{
  agent_claims, IssueRequest, IssueResponse, issue, build_mint_request, seconds,
}
use authserver.Token.Auth.{authenticate_client, validate_requested_resource, check_subject}
use authserver.Token.Reuse.{handle_code_reuse}
use authserver.Token.Refresh.{TokenResponse, create_refresh_token, track_jti}

pub record ExchangeRequest : Type 0 where
  pub code : String
  pub redirect_uri : String
  pub client_id : String
  pub client_secret : String
  pub code_verifier : String
  pub resource : String
  pub dpop_proof : String
  pub http_method : String
  pub http_url : String

-- Lines 196 to 206: a code that had been used is a replay, and is handled as one.
unfoldable pub redeemed : Env → ExchangeRequest → Redeemed → M Session
redeemed e req (fresh s) = pure s
redeemed e req (used s) = do
  handle_code_reuse e s req.code_verifier req.client_id
  raise code_consumed
redeemed e req (refused x) = raise x

-- What has been established when a code is accepted.
pub record Accepted : Type 0 where
  pub session : Session
  pub client : Client

-- Lines 208 to 331: what the consumed session is held against.
unfoldable pub check_session : Env → ExchangeRequest → Session → M Accepted
check_session e req s = do
  require (not (session_is_expired e.now s)) invalid_grant
  require (req.client_id == s.client_id) invalid_client
  require (req.redirect_uri == s.redirect_uri) invalid_grant
  c ← authenticate_client e s.client_id req.client_secret
  require (is_verified (verify_s256 e.s256 req.code_verifier s.code_challenge)) invalid_pkce
  validate_requested_resource e req.resource s.resource
  check_subject e s.user_id
  pure (record { session = s; client = c })

-- Lines 187 to 331: the code is consumed first, and everything else is checked after.
unfoldable pub check_code : Env → ExchangeRequest → M Accepted
unfolding redeemed
check_code e req = do
  reach e.outside token_config
  r ← consume_by_code_hash e.outside (e.hash req.code)
  s ← redeemed e req r
  check_session e req s

-- A body that fails in a transaction leaves the database as it was; random texts stay drawn. This is
-- right for bodies whose statements all run on the transaction (`dbOrTx`), as those here do: the
-- statements on DPoP identifiers and the writes of resources but their deletion run outside of it.
unfoldable pub rolled_back : {A : Type 0} → World → Run A → Run A
rolled_back w (ok a v) = ok a v
rolled_back w (err x v) = err x (record w { drawn = v.drawn })

unfoldable pub committed : {A : Type 0} → Env → World → A → M A
committed e w a v =
    if e.fails commit_tx then err internal (record w { drawn = v.drawn }) else ok a v

unfoldable pub body : {A : Type 0} → Env → M A → World → M A
unfolding rolled_back committed
body e m w v = rolled_back w ((m >>= committed e w) v)

-- `WithTransaction` outside of a transaction, where transactions are wired; no body here calls it
-- again, so that a call never joins a running one.
unfoldable pub in_transaction : {A : Type 0} → Env → M A → M A
unfolding body
in_transaction e m w =
    if e.has_transactions then (reach e.outside begin_tx >> body e m w) w else m w

unfoldable pub maybe_refresh : Bool → Env → String → M String
maybe_refresh true e family_id = create_refresh_token e family_id
maybe_refresh false e family_id = pure ""

-- `createFamilyAndRefresh`.
unfoldable pub create_family_and_refresh : Env → Client → Family → String → ℕ → M String
unfolding maybe_refresh
create_family_and_refresh e c f jti expiry = do
  insert_family e.outside f
  track_jti e jti f.id expiry
  maybe_refresh (has_grant_type c.grant_types "refresh_token") e f.id

unfoldable pub family_of : Env → Session → String → Family
family_of e s id = record {
  id = id;
  client_id = s.client_id;
  user_id = s.user_id;
  scope = s.scope;
  resource = s.resource;
  status = active;
  created_at = e.now;
  revoked_at = none;
  auth_session_id = if s.id == "" then none else some s.id;
}

unfoldable pub mint_for_code : Env → Accepted → String → IssueRequest
mint_for_code e k jkt = build_mint_request e (e.now + e.access_expiry) (record {
  user_id = k.session.user_id;
  client_id = k.session.client_id;
  scope = k.session.scope;
  resource = k.session.resource;
  dpop_jkt = jkt;
  agent_identity = agent_claims e k.client;
})

unfoldable pub code_response : Env → Accepted → IssueResponse → String → TokenResponse
code_response e k resp plain = record {
  access_token = resp.access_token;
  token_type = resp.token_type;
  expires_in = seconds e.access_expiry;
  refresh_token = plain;
  scope = k.session.scope;
}

-- Lines 345 to 457: the access token is minted, and the family and its first refresh token created.
unfoldable pub issue_for_code : Env → ExchangeRequest → Accepted → M TokenResponse
unfolding family_of mint_for_code code_response
issue_for_code e req k = do
  jkt ← bind_dpop e req.dpop_proof req.http_method req.http_url
  resp ← issue e (mint_for_code e k jkt)
  id ← draw e.outside
  plain ← in_transaction e (
      create_family_and_refresh e k.client (family_of e k.session id) resp.issuance_id
        (e.now + e.access_expiry))
  audited e (token_issued id)
  pure (code_response e k resp plain)

-- `exchangeCode`.
unfoldable pub exchange_checked : Env → ExchangeRequest → M TokenResponse
exchange_checked e req = do k ← check_code e req; issue_for_code e req k

unfoldable pub refuse : Env → String → Run TokenResponse → Run TokenResponse
refuse e client_id (ok r w) = ok r w
refuse e client_id (err x w) = (audited e (token_issue_denied client_id x) >> raise x) w

-- `ExchangeCode`: a refusal is audited.
unfoldable pub exchange_code : Env → ExchangeRequest → M TokenResponse
unfolding refuse
exchange_code e req w = refuse e req.client_id (exchange_checked e req w)
