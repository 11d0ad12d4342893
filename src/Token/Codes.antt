-- ===== src/Token/Codes.antt =====
-- Authorization codes of internal/services/token.go are good for one exchange.
use authserver.Common.{
  String, true, false, Option, some, none, List, [], ◌∷◌, ℕ, ◌≡◌, ◌⊎◌, refl, arith, ◌&&◌,
  Option-cases, Bool-cases, inl, inr,
}
use authserver.Domain.Errors.{Error, code_consumed, internal}
use authserver.Domain.Entities.{Session}
use authserver.Store.Table.{find, update}
use authserver.Store.Monad.{
  World, M, Run, ok, err, final, Keeps, >>=-Keeps, ◌>>=◌, ◌>>◌, raise, Outside, consume_code,
  token_config,
}
use authserver.Store.Sessions.{consume_by_code_hash, has_code, is_open, stamp, refused, redeem_used}
use authserver.Store.Tokens.{held}
use authserver.Token.Env.{Env, audited}
use authserver.Token.Reuse.{handle_code_reuse}
use authserver.Token.Refresh.{TokenResponse}
use authserver.Token.Exchange.{
  ExchangeRequest, exchange_code, exchange_checked, check_code, issue_for_code, redeemed, refuse,
}
use authserver.Token.Grants
use authserver.Token.Lasting.{Spent, Spent-Closed}
use authserver.Token.Histories.{History, History-Keeps}
use authserver.Token.Revoked.{succeeds, bind-fails}

stamp-none :
    (h : String) (now : ℕ) (ss : List Session)
    → find (λ s. has_code h s && is_open s) (update (λ t. has_code h t && is_open t) (stamp now) ss)
      ≡ none
stamp-none h now [] = refl
stamp-none h now (s ∷ ss) = ground (arith, stamp-none h now ss)

stamp-held :
    (h : String) (now : ℕ) (s : Session) (ss : List Session)
    → find (λ s. has_code h s && is_open s) ss ≡ some s
    → held (find (has_code h) (update (λ t. has_code h t && is_open t) (stamp now) ss)) ≡ true
stamp-held h now s [] e = ground arith
stamp-held h now s (t ∷ ss) e = ground (arith, stamp-held h now s ss)

pub consume-Spent :
    (o : Outside) (h : String) (w : World)
    → o.fails consume_code ≡ false
    → Spent h (final (consume_by_code_hash o h w))
unfolding Spent consume_by_code_hash
consume-Spent o h w e = elim (Option-cases (find (λ s. has_code h s && is_open s) w.sessions)) [
  | inl p ↦ ground (arith, e, p)
  | inr (s, p) ↦ ground (arith, e, stamp-none h o.now w.sessions, stamp-held h o.now s w.sessions p)
]

module _ {P : World → Type 0} where
  pub bind-establishes :
      {A B : Type 0} (m : M A) (f : A → M B) (w : World)
      → P (final (m w))
      → ((a : A) → Keeps P (f a))
      → P (final ((m >>= f) w))
  bind-establishes m f w h k = go (m w) h
    where
      go : (r : Run _) → P (final r) → P (final (elim r [ ok a v ↦ f a v | err e v ↦ err e v ]))
      go (ok a v) h = (k a).apply v h
      go (err e v) h = h

check_code-Spent :
    (e : Env) (req : ExchangeRequest) (w : World)
    → e.fails token_config ≡ false
    → e.fails consume_code ≡ false
    → Spent (e.hash req.code) (final (check_code e req w))
unfolding check_code
check_code-Spent e req w a b =
    let c = Spent-Closed (e.hash req.code) in
    rw a (
      bind-establishes (consume_by_code_hash e.outside (e.hash req.code)) _ w
        (consume-Spent e.outside (e.hash req.code) w b)
        (λ r. >>=-Keeps (Grants.redeemed-Keeps c e req r) (Grants.check_session-Keeps c e req)))

-- After any exchange request that reaches the store of codes, whether it succeeds or not, no
-- session with its code is open.
pub exchange_code-Spent :
    (e : Env) (req : ExchangeRequest) (w : World)
    → e.fails token_config ≡ false
    → e.fails consume_code ≡ false
    → Spent (e.hash req.code) (final (exchange_code e req w))
unfolding exchange_code exchange_checked
exchange_code-Spent e req w a b =
    let c = Spent-Closed (e.hash req.code) in
    Grants.refuse-Keeps c e req.client_id (exchange_checked e req w) (
      bind-establishes (check_code e req) (issue_for_code e req) w (check_code-Spent e req w a b)
        (Grants.issue_for_code-Keeps c e req))

code_refuse-fails :
    (e : Env) (id : String) (r : Run TokenResponse)
    → succeeds r ≡ false
    → succeeds (refuse e id r) ≡ false
unfolding refuse audited
code_refuse-fails e id r h = ground arith

pub raise-fails :
    {A : Type 0} (B : Type 0) (m : M A) (x : Error) (w : World)
    → succeeds ((m >> raise {A = B} x) w) ≡ false
raise-fails B m x w = ground arith

refused-fails :
    (e : Env) (req : ExchangeRequest) (x : Error) (w : World)
    → succeeds (redeemed e req (refused x) w) ≡ false
unfolding redeemed
refused-fails e req x w = refl

unused-fails :
    (e : Env) (req : ExchangeRequest) (o : Option Session) (w : World)
    → succeeds (redeemed e req (redeem_used o) w) ≡ false
unfolding redeemed
unused-fails e req none w = refl
unused-fails e req (some s) w =
    raise-fails Session (handle_code_reuse e s req.code_verifier req.client_id) code_consumed w

consume-refuses :
    (o : Outside) (h : String) (w : World)
    → Spent h w
    → (consume_by_code_hash o h w ≡ ok (refused internal) w)
      ⊎ (consume_by_code_hash o h w ≡ ok (redeem_used (find (has_code h) w.sessions)) w)
unfolding Spent consume_by_code_hash
consume-refuses o h w s = elim (Bool-cases (o.fails consume_code)) [
  | inl p ↦ inl (rw p refl)
  | inr p ↦ inr (rw (p, s) refl)
]

redeem-fails :
    (e : Env) (req : ExchangeRequest) (w : World)
    → Spent (e.hash req.code) w
    → succeeds ((consume_by_code_hash e.outside (e.hash req.code) >>= redeemed e req) w) ≡ false
redeem-fails e req w h = elim (consume-refuses e.outside (e.hash req.code) w h) [
  | inl p ↦ rw (p, ◌>>=◌) (refused-fails e req internal w)
  | inr p ↦ rw (p, ◌>>=◌) (unused-fails e req (find (has_code (e.hash req.code)) w.sessions) w)
]

check_code-fails :
    (e : Env) (req : ExchangeRequest) (w : World)
    → Spent (e.hash req.code) w
    → succeeds (check_code e req w) ≡ false
unfolding check_code
check_code-fails e req w h = ground (arith, redeem-fails e req w h)

pub exchange_code-fails :
    (e : Env) (req : ExchangeRequest) (w : World)
    → Spent (e.hash req.code) w
    → succeeds (exchange_code e req w) ≡ false
unfolding exchange_code exchange_checked
exchange_code-fails e req w h =
    code_refuse-fails e req.client_id (exchange_checked e req w)
      (bind-fails (check_code e req) (issue_for_code e req) w (check_code-fails e req w h))

-- After an exchange request that reaches the store of codes, and after any history of exchanges
-- and refreshes that follows it, no exchange of a code with the same hash succeeds.
pub code-redeemed_once :
    (e d : Env) (req again : ExchangeRequest) (w v : World)
    → e.fails token_config ≡ false
    → e.fails consume_code ≡ false
    → d.hash again.code ≡ e.hash req.code
    → History (final (exchange_code e req w)) v
    → succeeds (exchange_code d again v) ≡ false
code-redeemed_once e d req again w v a b same past = exchange_code-fails d again v (
    rw same (History-Keeps (Spent-Closed (e.hash req.code)) past (exchange_code-Spent e req w a b)))
