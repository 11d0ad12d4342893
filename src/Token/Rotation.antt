-- ===== src/Token/Rotation.antt =====
-- A refresh token of internal/services/token.go is used once, and a success replaces it.
use authserver.Common.{
  String, ℕ, ◌+◌, Option-cases, inl, inr, true, false, some, List, [], ◌∷◌, ◌≡◌, refl, subst, arith,
  ◌==◌, eq_refl,
}
use authserver.Domain.Errors.{refresh_token_reused}
use authserver.Domain.Entities.{Family, RefreshToken, family_is_active}
use authserver.Store.Table.{find, update}
use authserver.Store.Monad.{
  World, Run, ok, err, final, ◌>>◌, >>=-eq-ok, >>-Keeps, Outside, Call, recheck_family,
}
use authserver.Store.Tokens.{
  get, has_id, has_hash, token_has_id, consume_by_id, insert_token, consume, live,
}
use authserver.Token.Env.{Env, audited}
use authserver.Token.Reuse.{consume_done, consume_or_revoke_family, revoke_family_on_reuse}
use authserver.Token.Refresh.{
  RefreshRequest, TokenResponse, Checked, check_refresh, refresh_checked, refresh_token, refuse,
  new_token, mint_refreshed, finish_refresh, meanwhile, rechecked, rest_of, refuse_revoked,
  create_refresh_token, refresh_response,
}
use authserver.Token.Mint.{IssueResponse}
use authserver.Token.Grants
use authserver.Token.Lasting.{Used, Used-Closed, was_used}
use authserver.Token.Histories.{History, History-Keeps}
use authserver.Token.Accepted.{Grantable, check_refresh-Grantable}
use authserver.Token.Revoked.{succeeds}

consume-now :
    (id : String) (now : ℕ) (t : RefreshToken) (ts : List RefreshToken)
    → find (token_has_id id) ts ≡ some t
    → was_used (find (token_has_id id) (update (live id) (consume now) ts)) ≡ true
consume-now id now t [] h = ground arith
consume-now id now t (u ∷ ts) h = ground (arith, consume-now id now t ts)

pub consume_by_id-ok :
    (o : Outside) (id : String) (w v : World) (t : RefreshToken)
    → consume_by_id o id w ≡ ok t v
    → (was_used (find (token_has_id id) w.tokens) ≡ false) × Used id v
unfolding consume_by_id Used
consume_by_id-ok o id w v t h = elim (Option-cases (find (token_has_id id) w.tokens)) [
  | inl p ↦ ground (arith, p, h)
  | inr (u, p) ↦ ground (arith, p, h, consume-now id o.now u w.tokens p)
]

consume_done-ok :
    (e : Env) (t : RefreshToken) (r : Run RefreshToken) (v : World)
    → consume_done e t r ≡ ok tt v
    → (u : RefreshToken) × (r ≡ ok u v)
unfolding consume_done revoke_family_on_reuse
consume_done-ok e t (ok u w) v h = (u, ground arith)
consume_done-ok e t (err refresh_token_reused w) v h = ground arith
consume_done-ok e t (err x w) v h = ground arith

rest_of-ok :
    (e : Env) (k : Checked) (resp : IssueResponse) (w u : World) (r : TokenResponse)
    → rest_of e k resp w ≡ ok r u
    → (u.tokens ≡ new_token e k.family.id r.refresh_token (e.random (w.drawn + 1)) ∷ w.tokens)
      × (u.families ≡ w.families)
      × (r.scope ≡ k.scope)
unfolding rest_of create_refresh_token insert_token audited refresh_response
rest_of-ok e k resp w u r h = ground arith

refuse_revoked-fails :
    (e : Env) (resp : IssueResponse) (w : World) → succeeds (refuse_revoked e resp w) ≡ false
unfolding refuse_revoked
refuse_revoked-fails e resp w = ground arith

rechecked-ok :
    (e : Env) (k : Checked) (resp : IssueResponse) (f : Family) (w u : World) (r : TokenResponse)
    → rechecked e k resp f w ≡ ok r u
    → (family_is_active f ≡ true) × (rest_of e k resp w ≡ ok r u)
unfolding rechecked
rechecked-ok e k resp f w u r h = ground (arith, h, refuse_revoked-fails e resp w)

pub get-ok :
    (o : Outside) (c : Call) (id : String) (w v : World) (f : Family)
    → get o c id w ≡ ok f v
    → (v ≡ w) × (find (has_id id) w.families ≡ some f)
unfolding get
get-ok o c id w v f h = ground arith

-- What a refresh that has succeeded has done, from the world that it started in to the last.
pub record Rotated (e : Env) (req : RefreshRequest) (w u : World) (r : TokenResponse) : Type 0 where
  pub checked : Checked
  pub grantable : Grantable e req w checked
  pub unused : was_used (find (token_has_id checked.token.id) w.tokens) ≡ false
  pub spent : Used checked.token.id u
  pub family : Family
  pub kept : find (has_id checked.family.id) u.families ≡ some family
  pub live : family_is_active family ≡ true
  pub next_id : String
  pub next :
      find (has_hash (e.hash r.refresh_token)) u.tokens
      ≡ some (new_token e checked.family.id r.refresh_token next_id)
  pub scoped : r.scope ≡ checked.scope

-- What the second look at the family and the next token amount to.
record Finished (e : Env) (k : Checked) (u : World) (r : TokenResponse) : Type 0 where
  family : Family
  kept : find (has_id k.family.id) u.families ≡ some family
  live : family_is_active family ≡ true
  next_id : String
  next :
      find (has_hash (e.hash r.refresh_token)) u.tokens
      ≡ some (new_token e k.family.id r.refresh_token next_id)
  scoped : r.scope ≡ k.scope

head-found :
    (h : String) (t : RefreshToken) (ts us : List RefreshToken)
    → (t.token_hash == h) ≡ true
    → us ≡ t ∷ ts
    → find (has_hash h) us ≡ some t
head-found h t ts us p q = rw (q, p) refl

finish_refresh-ok :
    (e : Env) (k : Checked) (resp : IssueResponse) (w u : World) (r : TokenResponse)
    → finish_refresh e k resp w ≡ ok r u
    → Finished e k u r
unfolding finish_refresh
finish_refresh-ok e k resp w u r h =
    let (f, v, a, b) = >>=-eq-ok (get e.outside recheck_family k.family.id) _ w u r h in
    let (same, q) = get-ok e.outside recheck_family k.family.id w v f a in
    let (live, c) = rechecked-ok e k resp f v u r b in
    let (t, g, s) = rest_of-ok e k resp v u r c in
    record {
      family = f;
      kept = rw (g, same) q;
      live = live;
      next_id = e.random (v.drawn + 1);
      next = head-found _ _ v.tokens u.tokens (eq_refl (e.hash r.refresh_token)) t;
      scoped = s;
    }

mint_refreshed-ok :
    (e : Env) (req : RefreshRequest) (k : Checked) (resp : IssueResponse) (w v : World)
    → mint_refreshed e req k w ≡ ok resp v
    → (was_used (find (token_has_id k.token.id) w.tokens) ≡ false) × Used k.token.id v
unfolding mint_refreshed consume_or_revoke_family
mint_refreshed-ok e req k resp w v h =
    let (_, x, a, b) = >>=-eq-ok (consume_or_revoke_family e k.token) _ w v resp h in
    let (t, c) = consume_done-ok e k.token (consume_by_id e.outside k.token.id w) x a in
    let (unused, used) = consume_by_id-ok e.outside k.token.id w x t c in
    (
      unused,
      subst (λ s. Used k.token.id (final s)) b
          ((Grants.mint_token-Keeps (Used-Closed k.token.id) e req k).apply x used),
    )

finish-Used :
    (e : Env) (k : Checked) (resp : IssueResponse) (w u : World) (r : TokenResponse)
    → ((x : World) → History x (e.others x))
    → (meanwhile e >> finish_refresh e k resp) w ≡ ok r u
    → Used k.token.id w
    → Used k.token.id u
finish-Used e k resp w u r others h used =
    let c = Used-Closed k.token.id in
    subst (λ s. Used k.token.id (final s)) h
      ((>>-Keeps (Grants.meanwhile-Keeps c e (λ x p. History-Keeps c (others x) p))
          (Grants.finish_refresh-Keeps c e k resp)).apply
        w used)

refresh_checked-Rotated :
    (e : Env) (req : RefreshRequest) (w u : World) (r : TokenResponse)
    → ((x : World) → History x (e.others x))
    → refresh_checked e req w ≡ ok r u
    → Rotated e req w u r
unfolding refresh_checked meanwhile
refresh_checked-Rotated e req w u r others h =
    let (k, x, a, b) = >>=-eq-ok (check_refresh e req) _ w u r h in
    let (same, g) = check_refresh-Grantable e req w x k a in
    let (resp, y, c, d) = >>=-eq-ok (mint_refreshed e req k) _ x u r b in
    let (unused, used) = mint_refreshed-ok e req k resp x y c in
    let f = finish_refresh-ok e k resp (e.others y) u r d in
    record {
      checked = k;
      grantable = g;
      unused = rw⁻¹ same unused;
      spent = finish-Used e k resp y u r others d used;
      family = f.family;
      kept = f.kept;
      live = f.live;
      next_id = f.next_id;
      next = f.next;
      scoped = f.scoped;
    }

refuse-ok :
    (e : Env) (id : String) (s : Run TokenResponse) (u : World) (r : TokenResponse)
    → refuse e id s ≡ ok r u
    → s ≡ ok r u
unfolding refuse audited
refuse-ok e id (ok a w) u r h = h
refuse-ok e id (err x w) u r h = ground arith

-- A refresh that succeeds found its token stored and unexpired, its family active, the client that
-- was granted it registered, active and authenticated, and the resource and scope within the grant;
-- the token was unused before and is used after, the family is still active, and the response's
-- token is stored unused for the same family. Other requests may run meanwhile.
pub refresh_token-Rotated :
    (e : Env) (req : RefreshRequest) (w u : World) (r : TokenResponse)
    → ((x : World) → History x (e.others x))
    → refresh_token e req w ≡ ok r u
    → Rotated e req w u r
unfolding refresh_token
refresh_token-Rotated e req w u r others h =
    refresh_checked-Rotated e req w u r others
      (refuse-ok e req.client_id (refresh_checked e req w) u r h)
