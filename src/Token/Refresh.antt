-- ===== src/Token/Refresh.antt =====
-- The refresh_token grant: `refreshToken`, `refreshScope`, `createRefreshToken` and `trackJTI` of
-- internal/services/token.go.
use authserver.Common.{String, ℕ, ◌+◌, Option, none, some, ◌==◌, ◌&&◌, not, is_empty, if◌then◌else◌}
use authserver.Domain.Errors.{
  invalid_grant, invalid_client, invalid_scope, family_revoked, unauthorized_client,
}
use authserver.Domain.Clients.{Client, has_grant_type}
use authserver.Domain.Entities.{Family, RefreshToken, token_is_expired, family_is_active}
use authserver.Scope.{Set, parse, is_subset, intersect, to_string}
use authserver.Store.Monad.{
  M, Run, ok, err, final, ◌>>=◌, ◌>>◌, pure, raise, require, reach, draw, token_config, get_family,
  recheck_family, token_refreshed, token_refresh_denied,
}
use authserver.Store.Tokens.{get, get_by_hash, insert_token}
use authserver.Store.Revocations.{track, revoke}
use authserver.Token.Env.{Env, audited}
use authserver.Token.Dpop.{bind_dpop}
use authserver.Token.Mint.{
  agent_claims, IssueRequest, IssueResponse, issue, build_mint_request, seconds,
}
use authserver.Token.Auth.{authenticate_client, validate_requested_resource, check_subject_refresh}
use authserver.Token.Reuse.{consume_or_revoke_family}

pub record RefreshRequest : Type 0 where
  pub refresh_token : String
  pub client_id : String
  pub client_secret : String
  pub scope : String
  pub resource : String
  pub dpop_proof : String
  pub http_method : String
  pub http_url : String

pub record TokenResponse : Type 0 where
  pub access_token : String
  pub token_type : String
  pub expires_in : ℕ
  pub refresh_token : String
  pub scope : String

-- Lines 746 to 754: a scope that is asked for is within the grant and the ceiling.
unfoldable pub asked_scope : Set → Set → Set → Option String
asked_scope asked granted ceiling =
    if not (is_subset asked granted)
    then none
    else if not (is_empty ceiling) && not (is_subset asked ceiling)
    then none
    else some (to_string asked)

-- Lines 756 to 768: no scope is asked for; the grant is narrowed to the ceiling.
unfoldable pub granted_scope : String → Set → Set → Option String
granted_scope family_scope granted ceiling =
    if is_empty ceiling
    then some family_scope
    else if is_subset granted ceiling
    then some family_scope
    else (let narrowed = intersect granted ceiling in
        if is_empty narrowed then none else some (to_string narrowed))

-- `refreshScope`; both of its refusals wrap `ErrInvalidScope`.
unfoldable pub refresh_scope : String → String → Client → Option String
unfolding asked_scope granted_scope
refresh_scope requested family_scope c =
    if not (requested == "")
    then asked_scope (parse requested) (parse family_scope) (parse c.scope)
    else granted_scope family_scope (parse family_scope) (parse c.scope)

abbrev pub new_token : Env → String → String → String → RefreshToken
new_token e family_id plain id = record {
  id = id;
  family_id = family_id;
  token_hash = e.hash plain;
  expires_at = e.now + e.refresh_expiry;
  consumed_at = none;
  created_at = e.now;
}

-- `createRefreshToken`.
unfoldable pub create_refresh_token : Env → String → M String
create_refresh_token e family_id = do
  plain ← draw e.outside
  id ← draw e.outside
  insert_token e.outside (new_token e family_id plain id)
  pure plain

-- `trackJTI`: a failure is logged, and passed over.
unfoldable pub track_jti : Env → String → String → ℕ → M (Unit {0})
track_jti e jti family_id expiry w =
    if e.has_revocation then ok tt (final (track e.outside jti family_id expiry w)) else ok tt w

abbrev pub invalid_grant_of : {A : Type 0} → Run A → Run A
invalid_grant_of (ok a w) = ok a w
invalid_grant_of (err x w) = err invalid_grant w

abbrev pub scope_or_refuse : Option String → M String
scope_or_refuse none = raise invalid_scope
scope_or_refuse (some s) = pure s

-- What has been established before the token is consumed.
pub record Checked : Type 0 where
  pub token : RefreshToken
  pub family : Family
  pub client : Client
  pub scope : String

-- Lines 481 to 573: everything that is looked at before anything is written.
unfoldable pub check_refresh : Env → RefreshRequest → M Checked
check_refresh e req = do
  t ← (λ w. invalid_grant_of (get_by_hash e.outside (e.hash req.refresh_token) w))
  require (not (token_is_expired e.now t)) invalid_grant
  f ← get e.outside get_family t.family_id
  require (family_is_active f) family_revoked
  require (req.client_id == f.client_id) invalid_client
  c ← authenticate_client e f.client_id req.client_secret
  require (has_grant_type c.grant_types "refresh_token") unauthorized_client
  validate_requested_resource e req.resource f.resource
  s ← scope_or_refuse (refresh_scope req.scope f.scope c)
  reach e.outside token_config
  pure (record { token = t; family = f; client = c; scope = s })

unfoldable pub mint_for_refresh : Env → Checked → String → IssueRequest
mint_for_refresh e k jkt = build_mint_request e (e.now + e.access_expiry) (record {
  user_id = k.family.user_id;
  client_id = k.family.client_id;
  scope = k.scope;
  resource = k.family.resource;
  dpop_jkt = jkt;
  agent_identity = agent_claims e k.client;
})

-- Lines 594 to 659: the access token is minted and tracked.
unfoldable pub mint_token : Env → RefreshRequest → Checked → M IssueResponse
unfolding mint_for_refresh
mint_token e req k = do
  check_subject_refresh e k.family.user_id
  jkt ← bind_dpop e req.dpop_proof req.http_method req.http_url
  resp ← issue e (mint_for_refresh e k jkt)
  track_jti e resp.issuance_id k.family.id (e.now + e.access_expiry)
  pure resp

-- Lines 579 to 659: the token is consumed before anything is minted.
unfoldable pub mint_refreshed : Env → RefreshRequest → Checked → M IssueResponse
mint_refreshed e req k = do consume_or_revoke_family e k.token; mint_token e req k

unfoldable pub revoke_row : Env → String → M (Unit {0})
revoke_row e id w = if id == "" then ok tt w else ok tt (final (revoke e.outside id w))

unfoldable pub refresh_response : Env → Checked → IssueResponse → String → TokenResponse
refresh_response e k resp plain = record {
  access_token = resp.access_token;
  token_type = resp.token_type;
  expires_in = seconds e.access_expiry;
  refresh_token = plain;
  scope = k.scope;
}

unfoldable pub rest_of : Env → Checked → IssueResponse → M TokenResponse
unfolding refresh_response
rest_of e k resp = do
  plain ← create_refresh_token e k.family.id
  audited e (token_refreshed k.family.id)
  pure (refresh_response e k resp plain)

unfoldable pub refuse_revoked : Env → IssueResponse → M TokenResponse
unfolding revoke_row
refuse_revoked e resp = revoke_row e resp.issuance_id >> raise family_revoked

unfoldable pub rechecked : Env → Checked → IssueResponse → Family → M TokenResponse
unfolding refuse_revoked
rechecked e k resp f = if family_is_active f then rest_of e k resp else refuse_revoked e resp

-- Lines 664 to 717: the family is read again. If it has been revoked meanwhile, the issuance row is
-- revoked and the grant refused; otherwise the next refresh token is created.
unfoldable pub finish_refresh : Env → Checked → IssueResponse → M TokenResponse
unfolding rechecked
finish_refresh e k resp = do f ← get e.outside recheck_family k.family.id; rechecked e k resp f

-- Other requests may run while the token is minted.
unfoldable pub meanwhile : Env → M (Unit {0})
meanwhile e w = ok tt (e.others w)

-- `refreshToken`.
unfoldable pub refresh_checked : Env → RefreshRequest → M TokenResponse
unfolding meanwhile
refresh_checked e req = do
  k ← check_refresh e req
  resp ← mint_refreshed e req k
  meanwhile e
  finish_refresh e k resp

unfoldable pub refuse : Env → String → Run TokenResponse → Run TokenResponse
refuse e client_id (ok r w) = ok r w
refuse e client_id (err x w) = (audited e (token_refresh_denied client_id x) >> raise x) w

-- `RefreshToken`: a refusal is audited.
unfoldable pub refresh_token : Env → RefreshRequest → M TokenResponse
unfolding refuse
refresh_token e req w = refuse e req.client_id (refresh_checked e req w)
