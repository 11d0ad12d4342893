-- ===== src/Token/Punishment.antt =====
-- What the reuse of a refresh token costs, in internal/services/token.go: the family, its refresh
-- tokens and its tracked access tokens.
use authserver.Common.{
  String, ℕ, inl, inr, true, false, some, List, [], ◌∷◌, ◌≡◌, refl, ap, ◌∙◌, arith, ◌==◌,
  if◌then◌else◌, In, In-add_key, add_key,
}
use authserver.Domain.Errors.{Error, refresh_token_reused, family_revoked}
use authserver.Domain.Entities.{Family, RefreshToken, family_is_active, is_set}
use authserver.Store.Table.{find, update}
use authserver.Store.Monad.{
  World, M, ok, err, final, ◌>>=◌, Outside, consume_refresh_token, revoke_family, revoke_by_family,
  TrackedJti,
}
use authserver.Store.Tokens.{
  has_id, consume_by_id, consume, live_in, revoke_by_id, revocable, revoke, in_family,
}
use authserver.Store.Revocations.{deny_by_family, deny_family}
use authserver.Token.Env.{Env, audited}
use authserver.Token.Reuse.{
  consume_done, consume_or_revoke_family, revoke_family_on_reuse, run_reuse_halves,
  revoke_family_half, denylist_family_jtis, revoke_half_done, deny_half_done,
}
use authserver.Token.Refresh.{
  RefreshRequest, Checked, check_refresh, refresh_checked, refresh_token, refuse, mint_refreshed,
  mint_token,
}
use authserver.Token.Lasting.{Used, Dead, inactive}
use authserver.Token.Accepted.{check_refresh-Grantable}

-- No call of a store fails that the answer to a reuse needs.
pub record Working (e : Env) : Type 0 where
  pub consumes : e.fails consume_refresh_token ≡ false
  pub revokes : e.fails revoke_family ≡ false
  pub denies : e.fails revoke_by_family ≡ false
  pub wired : e.has_revocation ≡ true

reuse-effect :
    (e : Env) (id : String) (w : World)
    → Working e
    → (z : World) × (revoke_family_on_reuse e id w ≡ err family_revoked z)
      × (z.families ≡ update (revocable id) (revoke e.now) w.families)
      × (z.tokens ≡ update (live_in id) (consume e.now) w.tokens)
      × (z.denied ≡ deny_family id w.tracked w.denied)
unfolding revoke_family_on_reuse run_reuse_halves revoke_family_half denylist_family_jtis
    revoke_half_done deny_half_done deny_by_family revoke_by_id audited
reuse-effect e id w g = (
  final (revoke_family_on_reuse e id w),
  ground (arith, g.revokes, g.denies, g.wired),
  ground (arith, g.revokes, g.denies, g.wired),
  ground (arith, g.revokes, g.denies, g.wired),
  ground (arith, g.revokes, g.denies, g.wired),
)

-- The family is revoked, its refresh tokens are used, and its access tokens that had been tracked
-- are denied.
pub record Punished (id : String) (w z : World) : Type 0 where
  pub dead : Dead id z
  pub used :
      (t : RefreshToken) → In t z.tokens → in_family id t ≡ true → is_set t.consumed_at ≡ true
  pub denied : (j : TrackedJti) → In j w.tracked → (j.family_id == id) ≡ true → In j.jti z.denied

revoked-dead :
    (id : String) (now : ℕ) (f : Family) (fs : List Family)
    → find (has_id id) fs ≡ some f
    → inactive (find (has_id id) (update (revocable id) (revoke now) fs)) ≡ true
unfolding family_is_active
revoked-dead id now f [] h = ground arith
revoked-dead id now f (g ∷ fs) h = ground (arith, revoked-dead id now f fs)

consumed-used :
    (id : String) (now : ℕ) (t : RefreshToken) (ts : List RefreshToken)
    → In t (update (live_in id) (consume now) ts)
    → in_family id t ≡ true
    → is_set t.consumed_at ≡ true
consumed-used id now t [] h f = absurd h
consumed-used id now t (u ∷ ts) h f = ground (arith, consumed-used id now t ts, h, f)

step-stays :
    (id : String) (s : String) (j : TrackedJti) (ds : List String)
    → In s ds
    → In s (if j.family_id == id then add_key ds j.jti else ds)
step-stays id s j ds h = ground (arith, h, In-add_key ds j.jti s)

denied-stays :
    (id : String) (s : String) (js : List TrackedJti) (ds : List String)
    → In s ds
    → In s (deny_family id js ds)
unfolding deny_family
denied-stays id s [] ds h = h
denied-stays id s (j ∷ js) ds h = denied-stays id s js _ (step-stays id s j ds h)

denied-In :
    (id : String) (j : TrackedJti) (js : List TrackedJti) (ds : List String)
    → In j js
    → (j.family_id == id) ≡ true
    → In j.jti (deny_family id js ds)
unfolding deny_family
denied-In id j [] ds h f = absurd h
denied-In id j (k ∷ js) ds (inl e) f =
    denied-stays id j.jti js _ (rw e (rw f ((In-add_key ds j.jti j.jti).1 (inl refl))))
denied-In id j (k ∷ js) ds (inr h) f = denied-In id j js _ h f

pub Punished-intro :
    (now : ℕ) (id : String) (f : Family) (w z : World)
    → find (has_id id) w.families ≡ some f
    → z.families ≡ update (revocable id) (revoke now) w.families
    → z.tokens ≡ update (live_in id) (consume now) w.tokens
    → z.denied ≡ deny_family id w.tracked w.denied
    → Punished id w z
unfolding Dead
Punished-intro now id f w z h a b c = record {
  dead = rw a (revoked-dead id now f w.families h);
  used = λ t m q. consumed-used id now t w.tokens (rw b at m) q;
  denied = λ j m q. rw c (denied-In id j w.tracked w.denied m q);
}

reuse-Punished :
    (e : Env) (id : String) (f : Family) (w : World)
    → Working e
    → find (has_id id) w.families ≡ some f
    → (z : World) × (revoke_family_on_reuse e id w ≡ err family_revoked z) × Punished id w z
reuse-Punished e id f w g h =
    let (z, p, a, b, c) = reuse-effect e id w g in (z, p, Punished-intro e.now id f w z h a b c)

consume_by_id-reused :
    (o : Outside) (id : String) (w : World)
    → o.fails consume_refresh_token ≡ false
    → Used id w
    → consume_by_id o id w ≡ err refresh_token_reused w
unfolding consume_by_id Used
consume_by_id-reused o id w a h = ground arith

bind-error :
    {A B : Type 0} (m : M A) (f : A → M B) (w z : World) (x : Error)
    → m w ≡ err x z
    → (m >>= f) w ≡ err x z
bind-error m f w z x h = ground arith

mint_refreshed-reused :
    (e : Env) (req : RefreshRequest) (k : Checked) (w z : World)
    → e.fails consume_refresh_token ≡ false
    → Used k.token.id w
    → revoke_family_on_reuse e k.token.family_id w ≡ err family_revoked z
    → mint_refreshed e req k w ≡ err family_revoked z
unfolding mint_refreshed consume_or_revoke_family consume_done
mint_refreshed-reused e req k w z a u h =
    bind-error (consume_or_revoke_family e k.token) (λ _. mint_token e req k) w z family_revoked
      (ap (consume_done e k.token) (consume_by_id-reused e.outside k.token.id w a u) ∙ h)

refuse-audits :
    (e : Env) (id : String) (x : Error) (w : World)
    → (z : World) × (refuse e id (err x w) ≡ err x z)
      × (z.families ≡ w.families)
      × (z.tokens ≡ w.tokens)
      × (z.denied ≡ w.denied)
unfolding refuse audited
refuse-audits e id x w =
    (final (refuse e id (err x w)), ground arith, ground arith, ground arith, ground arith)

pub Punished-frame :
    (id : String) (w x z : World)
    → z.families ≡ x.families
    → z.tokens ≡ x.tokens
    → z.denied ≡ x.denied
    → Punished id w x
    → Punished id w z
unfolding Dead
Punished-frame id w x z a b c p = record {
  dead = rw a p.dead;
  used = λ t m q. p.used t (rw b at m) q;
  denied = λ j m q. rw c (p.denied j m q);
}

-- A refresh request that passes every check with a token that has been used is refused as a revoked
-- family, where no store fails and the denylist is wired: then the family is not active, all its
-- refresh tokens are used, and every access token that had been tracked for it is on the denylist.
pub replay-Punished :
    (e : Env) (req : RefreshRequest) (w : World) (k : Checked)
    → Working e
    → check_refresh e req w ≡ ok k w
    → Used k.token.id w
    → (z : World) × (refresh_token e req w ≡ err family_revoked z) × Punished k.token.family_id w z
unfolding refresh_token refresh_checked
replay-Punished e req w k g p u =
    let (_, c) = check_refresh-Grantable e req w w k p in
    let (x, q, h) = reuse-Punished e k.token.family_id k.family w g c.family in
    let (z, r, a, b, d) = refuse-audits e req.client_id family_revoked x in
    let minted = mint_refreshed-reused e req k w x g.consumes u q in
    (z, rw (p, ◌>>=◌, minted, ◌>>=◌) r, Punished-frame k.token.family_id w x z a b d h)
