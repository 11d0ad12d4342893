-- ===== src/Token/Revoked.antt =====
-- A revoked family of internal/services/token.go: no refresh token of it is ever accepted again.
use authserver.Common.{String, Bool, true, false, some, ◌≡◌, arith}
use authserver.Domain.Entities.{RefreshToken}
use authserver.Store.Table.{find}
use authserver.Store.Monad.{World, M, Run, ok, err, ◌>>=◌}
use authserver.Store.Tokens.{get, get_by_hash, has_hash}
use authserver.Token.Env.{Env, audited}
use authserver.Token.Refresh.{
  RefreshRequest, TokenResponse, check_refresh, refresh_checked, refresh_token, refuse,
}
use authserver.Token.Lasting.{Dead, Dead-Closed}
use authserver.Token.Histories.{History, History-Keeps}

abbrev pub succeeds : {A : Type 0} → Run A → Bool
succeeds (ok a w) = true
succeeds (err e w) = false

check_refresh-Dead :
    (e : Env) (req : RefreshRequest) (w : World) (t : RefreshToken)
    → Dead t.family_id w
    → find (has_hash (e.hash req.refresh_token)) w.tokens ≡ some t
    → succeeds (check_refresh e req w) ≡ false
unfolding check_refresh get get_by_hash Dead
check_refresh-Dead e req w t d h = ground arith

pub refuse-fails :
    (e : Env) (id : String) (r : Run TokenResponse)
    → succeeds r ≡ false
    → succeeds (refuse e id r) ≡ false
unfolding refuse audited
refuse-fails e id r h = ground arith

pub bind-fails :
    {A B : Type 0} (m : M A) (f : A → M B) (w : World)
    → succeeds (m w) ≡ false
    → succeeds ((m >>= f) w) ≡ false
bind-fails m f w h = ground arith

pub refresh_token-Dead :
    (e : Env) (req : RefreshRequest) (w : World) (t : RefreshToken)
    → Dead t.family_id w
    → find (has_hash (e.hash req.refresh_token)) w.tokens ≡ some t
    → succeeds (refresh_token e req w) ≡ false
unfolding refresh_token refresh_checked
refresh_token-Dead e req w t d h =
    refuse-fails e req.client_id (refresh_checked e req w)
      (bind-fails (check_refresh e req) _ w (check_refresh-Dead e req w t d h))

-- If a family is there and not active, then after any history of exchanges and refreshes no
-- refresh request with a token of that family succeeds.
pub revoked_family-stays_refused :
    (e : Env) (req : RefreshRequest) (w v : World) (t : RefreshToken)
    → History w v
    → Dead t.family_id w
    → find (has_hash (e.hash req.refresh_token)) v.tokens ≡ some t
    → succeeds (refresh_token e req v) ≡ false
revoked_family-stays_refused e req w v t past d h =
    refresh_token-Dead e req v t (History-Keeps (Dead-Closed t.family_id) past d) h
