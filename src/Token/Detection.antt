-- ===== src/Token/Detection.antt =====
-- Reuse of a refresh token of internal/services/token.go: it is refused, and costs the family.
use authserver.Common.{String, inl, inr, false, ◌≡◌, refl, subst, arith, eq_iff, eq_refl}
use authserver.Domain.Errors.{refresh_token_reused}
use authserver.Domain.Entities.{RefreshToken}
use authserver.Store.Monad.{World, M, Run, ok, err, final, ◌>>=◌, Run-cases, Outside}
use authserver.Store.Tokens.{consume_by_id}
use authserver.Token.Env.{Env}
use authserver.Token.Reuse.{consume_done, consume_or_revoke_family, revoke_family_on_reuse}
use authserver.Token.Refresh.{
  RefreshRequest, TokenResponse, Checked, check_refresh, refresh_checked, refresh_token,
  mint_refreshed,
}
use authserver.Token.Grants.{refresh_token-Keeps}
use authserver.Token.Lasting.{Used, Used-Closed, Hashes, Hashes-Closed}
use authserver.Token.Histories.{History, History-Keeps}
use authserver.Token.Accepted.{Grantable, check_refresh-Grantable}
use authserver.Token.Revoked.{succeeds, refuse-fails, bind-fails}
use authserver.Token.Rotation.{refresh_token-Rotated}

consume_by_id-Used :
    (o : Outside) (id : String) (w : World) → Used id w → succeeds (consume_by_id o id w) ≡ false
unfolding consume_by_id Used
consume_by_id-Used o id w h = ground arith

pub revoke_family_on_reuse-fails :
    (e : Env) (id : String) (w : World) → succeeds (revoke_family_on_reuse e id w) ≡ false
unfolding revoke_family_on_reuse
revoke_family_on_reuse-fails e id w = ground arith

consume_done-fails :
    (e : Env) (t : RefreshToken) (r : Run RefreshToken)
    → succeeds r ≡ false
    → succeeds (consume_done e t r) ≡ false
unfolding consume_done
consume_done-fails e t (ok u w) h = ground arith
consume_done-fails e t (err refresh_token_reused w) h = revoke_family_on_reuse-fails e t.family_id w
consume_done-fails e t (err x w) h = ground arith

mint_refreshed-Used :
    (e : Env) (req : RefreshRequest) (k : Checked) (w : World)
    → Used k.token.id w
    → succeeds (mint_refreshed e req k w) ≡ false
unfolding mint_refreshed consume_or_revoke_family
mint_refreshed-Used e req k w h =
    bind-fails (consume_or_revoke_family e k.token) _ w
      (consume_done-fails e k.token _ (consume_by_id-Used e.outside k.token.id w h))

checked_token-names :
    (e : Env) (req : RefreshRequest) (w : World) (k : Checked) (id : String)
    → Grantable e req w k
    → Hashes (e.hash req.refresh_token) id w
    → k.token.id ≡ id
unfolding Hashes
checked_token-names e req w k id g h = (eq_iff k.token.id id).0 (rw g.stored at h)

named_at :
    (e : Env) (req : RefreshRequest) (w : World) (k : Checked)
    → Grantable e req w k
    → Hashes (e.hash req.refresh_token) k.token.id w
unfolding Hashes
named_at e req w k g = rw g.stored (eq_refl k.token.id)

bind-all-fail :
    {A B : Type 0} (m : M A) (f : A → M B) (w : World)
    → ((a : A) (v : World) → m w ≡ ok a v → succeeds (f a v) ≡ false)
    → succeeds ((m >>= f) w) ≡ false
bind-all-fail m f w h = elim (Run-cases (m w)) [
  | inl (a, v, p) ↦ rw (p, ◌>>=◌) (h a v p)
  | inr (x, v, p) ↦ rw (p, ◌>>=◌) refl
]

refresh_token-Used :
    (e : Env) (req : RefreshRequest) (w : World) (id : String)
    → Hashes (e.hash req.refresh_token) id w
    → Used id w
    → succeeds (refresh_token e req w) ≡ false
unfolding refresh_token refresh_checked
refresh_token-Used e req w id n u = refuse-fails e req.client_id (refresh_checked e req w) (
    bind-all-fail (check_refresh e req) _ w (λ k v p.
      let (same, g) = check_refresh-Grantable e req w v k p in
      bind-fails (mint_refreshed e req k) _ v
        (mint_refreshed-Used e req k v (rw (same, checked_token-names e req w k id g n) u))))

-- When a refresh has succeeded, then after any history of exchanges and refreshes no refresh with a
-- token of the same hash succeeds.
pub refresh_token-used_once :
    (e d : Env) (req again : RefreshRequest) (w u v : World) (r : TokenResponse)
    → ((x : World) → History x (e.others x))
    → refresh_token e req w ≡ ok r u
    → History u v
    → d.hash again.refresh_token ≡ e.hash req.refresh_token
    → succeeds (refresh_token d again v) ≡ false
refresh_token-used_once e d req again w u v r others h past same =
    let g = refresh_token-Rotated e req w u r others h in
    let t = g.checked.token in
    let hash = e.hash req.refresh_token in
    let c = Hashes-Closed hash t.id in
    let named = named_at e req w g.checked g.grantable in
    let after =
      subst (λ x. Hashes hash t.id (final x)) h
        ((refresh_token-Keeps c e req (λ x p. History-Keeps c (others x) p)).apply w named) in
    refresh_token-Used d again v t.id (rw same (History-Keeps c past after))
      (History-Keeps (Used-Closed t.id) past g.spent)
