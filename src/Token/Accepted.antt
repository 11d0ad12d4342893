-- ===== src/Token/Accepted.antt =====
-- What a refresh request of internal/services/token.go has passed when it succeeds.
use authserver.Common.{true, false, some, ◌≡◌, arith, ◌==◌}
use authserver.Domain.Clients.{is_active, has_grant_type}
use authserver.Domain.Entities.{family_is_active, token_is_expired}
use authserver.Store.Table.{find}
use authserver.Store.Monad.{World, ok}
use authserver.Store.Tokens.{get, get_by_hash, has_id, has_hash}
use authserver.Token.Env.{Env}
use authserver.Token.Auth.{
  secret_fits, resource_fits, validate_requested_resource, authenticate_client, authenticate_found,
}
use authserver.Token.Refresh.{RefreshRequest, Checked, check_refresh, refresh_scope}

-- Everything that is looked at before the token is consumed.
pub record Grantable (e : Env) (req : RefreshRequest) (w : World) (k : Checked) : Type 0 where
  pub stored : find (has_hash (e.hash req.refresh_token)) w.tokens ≡ some k.token
  pub unexpired : token_is_expired e.now k.token ≡ false
  pub family : find (has_id k.token.family_id) w.families ≡ some k.family
  pub live : family_is_active k.family ≡ true
  pub same_client : (req.client_id == k.family.client_id) ≡ true
  pub registered : e.client k.family.client_id ≡ some k.client
  pub enabled : is_active k.client ≡ true
  pub authenticated : secret_fits e k.client req.client_secret ≡ true
  pub allowed : has_grant_type k.client.grant_types "refresh_token" ≡ true
  pub fits : resource_fits e req.resource k.family.resource ≡ true
  pub scoped : refresh_scope req.scope k.family.scope k.client ≡ some k.scope

pub check_refresh-Grantable :
    (e : Env) (req : RefreshRequest) (w u : World) (k : Checked)
    → check_refresh e req w ≡ ok k u
    → (u ≡ w) × Grantable e req w k
unfolding check_refresh get get_by_hash authenticate_client authenticate_found
    validate_requested_resource
check_refresh-Grantable e req w u k h = ground arith
