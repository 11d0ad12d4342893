-- ===== src/Revocation/Service.antt =====
-- `RevokeToken` and `tryRevokeMachineToken` of internal/services/revocation.go. Log lines and
-- metrics are left out.
use authserver.Common.{String, Bool, Option, none, some, ◌==◌, if◌then◌else◌}
use authserver.Domain.Errors.{invalid_client}
use authserver.Domain.Clients.{Client, is_active, is_public}
use authserver.Domain.Entities.{Family, RefreshToken}
use authserver.Store.Monad.{
  M, Run, ok, err, final, ◌>>=◌, ◌>>◌, pure, reach, get_family, build_jwks, issuer, token_revoked,
}
use authserver.Store.Tokens.{get, get_by_hash, revoke_by_id}
use authserver.Store.Revocations.{deny_by_family, revoke_machine}
use authserver.Token.Env.{Env, Claims, audited}
use authserver.Revocation.Verify.{SignedToken, verify_access_token_with_issuer}

pub record RevokeRequest : Type 0 where
  pub token : String
  pub token_type_hint : String
  pub client_id : String
  pub client_secret : String

-- What `NewRevocationService` is given beyond `Env`: whether machine tokens are wired, and the
-- JOSE library's reading of a token against the keys of this server.
pub record Revoker : Type 0 where
  pub env : Env
  pub has_machine_tokens : Bool
  pub read_token : String → Option SignedToken

-- A step that is best effort: its error is logged, and passed over.
unfoldable pub attempt : {A : Type 0} → M A → M (Unit {0})
attempt m w = ok tt (final (m w))

unfoldable pub revoke_claimed : Revoker → RevokeRequest → Option Claims → M (Unit {0})
revoke_claimed r req none = pure tt
revoke_claimed r req (some c) =
    if c.client_id == req.client_id
    then (revoke_machine r.env.outside c.jti >> audited r.env (token_revoked c.jti))
    else pure tt

unfoldable pub try_revoke_machine_token : Revoker → RevokeRequest → M (Unit {0})
unfolding attempt revoke_claimed
try_revoke_machine_token r req =
    if r.has_machine_tokens
    then attempt (do
      reach r.env.outside build_jwks
      reach r.env.outside issuer
      revoke_claimed r req
          (verify_access_token_with_issuer r.env.now r.env.issuer_name (r.read_token req.token)))
    else pure tt

-- Who may revoke, and whether anything is revoked for it.
pub data Standing : Type 0 where
  refused welcome ignored : Standing

unfoldable pub standing_of : Env → Client → String → Standing
standing_of e c secret =
    if is_public c
    then (if is_active c then welcome else ignored)
    else if secret == ""
    then refused
    else if e.secret_matches c.secret_hash secret
    then (if is_active c then welcome else refused)
    else refused

unfoldable pub standing : Env → RevokeRequest → Option Client → Standing
unfolding standing_of
standing e req none = refused
standing e req (some c) = standing_of e c req.client_secret

unfoldable pub deny_tracked : Env → String → M (Unit {0})
unfolding attempt
deny_tracked e id = if e.has_revocation then attempt (deny_by_family e.outside id) else pure tt

unfoldable pub revoke_owned : Revoker → String → M (Unit {0})
unfolding attempt deny_tracked
revoke_owned r id = attempt (do
  done ← revoke_by_id r.env.outside id
  deny_tracked r.env id
  audited r.env (token_revoked id))

unfoldable pub revoke_of : Revoker → RevokeRequest → String → Run Family → Run (Unit {0})
unfolding revoke_owned
revoke_of r req id (err x w) = ok tt w
revoke_of r req id (ok f w) = if f.client_id == req.client_id then revoke_owned r id w else ok tt w

-- The token is a refresh token, or is tried as a machine token.
unfoldable pub revoke_found : Revoker → RevokeRequest → Run RefreshToken → Run (Unit {0})
unfolding revoke_of try_revoke_machine_token
revoke_found r req (err x w) = try_revoke_machine_token r req w
revoke_found r req (ok t w) =
    revoke_of r req t.family_id (get r.env.outside get_family t.family_id w)

unfoldable pub revoke_welcome : Revoker → RevokeRequest → Standing → M (Unit {0})
unfolding revoke_found
revoke_welcome r req refused w = err invalid_client w
revoke_welcome r req ignored w = ok tt w
revoke_welcome r req welcome w =
    revoke_found r req (get_by_hash r.env.outside (r.env.hash req.token) w)

unfoldable pub revoke_token : Revoker → RevokeRequest → M (Unit {0})
unfolding revoke_welcome standing
revoke_token r req = revoke_welcome r req (standing r.env req (r.env.client req.client_id))
