-- ===== src/Token/Redeemed.antt =====
-- What a code exchange of internal/services/token.go has passed when its code is accepted.
use authserver.Common.{
  String, true, false, Option, some, none, List, ◌≡◌, refl, sym, subst, arith, ◌==◌, ◌&&◌,
  Option-cases, Bool-cases, inl, inr,
}
use authserver.Domain.Clients.{is_active}
use authserver.Domain.Entities.{Session, session_is_expired}
use authserver.Pkce.{verify_s256, is_verified}
use authserver.Store.Table.{find, update}
use authserver.Store.Monad.{
  World, Outside, M, ok, ◌>>◌, >>=-eq-ok, consume_code, Call, reach, token_config,
}
use authserver.Store.Sessions.{
  consume_by_code_hash, Redeemed, fresh, used, refused, has_code, is_open, stamp, redeem_fresh,
}
use authserver.Token.Env.{Env}
use authserver.Token.Auth.{
  secret_fits, resource_fits, validate_requested_resource, authenticate_client, authenticate_found,
  check_subject,
}
use authserver.Token.Reuse.{handle_code_reuse}
use authserver.Token.Exchange.{ExchangeRequest, Accepted, redeemed, check_session, check_code}
use authserver.Token.Codes.{raise-fails}

-- What is required of a session and of the request that presents its code.
pub record Redeemable (e : Env) (req : ExchangeRequest) (k : Accepted) : Type 0 where
  pub unexpired : session_is_expired e.now k.session ≡ false
  pub same_client : (req.client_id == k.session.client_id) ≡ true
  pub same_redirect : (req.redirect_uri == k.session.redirect_uri) ≡ true
  pub registered : e.client k.session.client_id ≡ some k.client
  pub enabled : is_active k.client ≡ true
  pub authenticated : secret_fits e k.client req.client_secret ≡ true
  pub verified : is_verified (verify_s256 e.s256 req.code_verifier k.session.code_challenge) ≡ true
  pub fits : resource_fits e req.resource k.session.resource ≡ true

check_session-ok :
    (e : Env) (req : ExchangeRequest) (s : Session) (w u : World) (k : Accepted)
    → check_session e req s w ≡ ok k u
    → (u ≡ w) × (k.session ≡ s) × Redeemable e req k
unfolding check_session authenticate_client authenticate_found validate_requested_resource
    check_subject
check_session-ok e req s w u k h = ground arith

-- The sessions once the open one of a code has been stamped.
abbrev pub stamped : Outside → String → World → List Session
stamped o h w = update (λ t. has_code h t && is_open t) (stamp o.now) w.sessions

-- The code named an open session before; the accepted session is the row that it names once the
-- open one has been stamped as consumed.
pub record Opened (o : Outside) (hash : String) (w : World) (s : Session) : Type 0 where
  pub before : Session
  pub was_open : find (λ t. has_code hash t && is_open t) w.sessions ≡ some before
  pub stored : find (has_code hash) (stamped o hash w) ≡ some s

redeemed-ok :
    (e : Env) (req : ExchangeRequest) (r : Redeemed) (w u : World) (s : Session)
    → redeemed e req r w ≡ ok s u
    → (r ≡ fresh s) × (u ≡ w)
unfolding redeemed
redeemed-ok e req (fresh x) w u s h = ground arith
redeemed-ok e req (used x) w u s h =
    ground
      (arith, h, raise-fails Session (handle_code_reuse e x req.code_verifier req.client_id) _ w)
redeemed-ok e req (refused x) w u s h = ground arith

redeem_fresh-ok :
    (h : String) (w u : World) (after : List Session) (o : Option Session) (s : Session)
    → find (has_code h) after ≡ o
    → redeem_fresh w after o ≡ ok (fresh s) u
    → o ≡ some s
redeem_fresh-ok h w u after none s p q = ground arith
redeem_fresh-ok h w u after (some t) s p q = ground (arith, q)

consume-Opened :
    (o : Outside) (h : String) (w u : World) (s : Session)
    → consume_by_code_hash o h w ≡ ok (fresh s) u
    → Opened o h w s
unfolding consume_by_code_hash
consume-Opened o h w u s q = elim (Bool-cases (o.fails consume_code)) [
  | inl p ↦ ground (arith, p, q)
  | inr p ↦ elim (Option-cases (find (λ t. has_code h t && is_open t) w.sessions)) [
    | inl n ↦ elim (Option-cases (find (has_code h) w.sessions)) [
      | inl m ↦ ground (arith, p, n, m, q)
      | inr (t, m) ↦ ground (arith, p, n, m, q)
    ]
    | inr (t, n) ↦ record {
      before = t;
      was_open = n;
      stored = redeem_fresh-ok h w u (stamped o h w) _ s refl (rw (p, n) at q);
    }
  ]
]

pub reached :
    {A : Type 0} (o : Outside) (c : Call) (m : M A) (w u : World) (a : A)
    → (reach o c >> m) w ≡ ok a u
    → m w ≡ ok a u
reached o c m w u a h = ground arith

pub check_code-ok :
    (e : Env) (req : ExchangeRequest) (w u : World) (k : Accepted)
    → check_code e req w ≡ ok k u
    → Opened e.outside (e.hash req.code) w k.session × Redeemable e req k
unfolding check_code
check_code-ok e req w u k h =
    let q = reached e.outside token_config _ w u k h in
    let (r, x, a, b) = >>=-eq-ok (consume_by_code_hash e.outside (e.hash req.code)) _ w u k q in
    let (s, y, c, d) = >>=-eq-ok (redeemed e req r) _ x u k b in
    let (f, same) = redeemed-ok e req r x y s c in
    let (_, g, t) = check_session-ok e req s y u k d in
    (
      subst (Opened e.outside (e.hash req.code) w) (sym g)
          (consume-Opened e.outside (e.hash req.code) w x s (rw f at a)),
      t,
    )
