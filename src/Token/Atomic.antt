-- ===== src/Token/Atomic.antt =====
-- Errors in internal/services/token.go: what a transaction takes back, and what a replayed code
-- costs.
use authserver.Common.{
  String, true, false, some, ◌≡◌, refl, subst, arith, Bool-cases, inl, inr, ◌⊎◌, ◌≢◌, eq_iff,
}
use authserver.Pkce.{verify_s256, is_verified}
use authserver.Domain.Errors.{Error}
use authserver.Domain.Entities.{Session, Family, family_is_active}
use authserver.Store.Table.{find, update}
use authserver.Store.Monad.{World, M, Run, ok, err, final, ◌>>◌, begin_tx, reach, family_by_session}
use authserver.Store.Tokens.{
  has_id, get_by_auth_session_id, born_of, revocable, revoke, consume, live_in, revoke_by_id,
}
use authserver.Store.Revocations.{deny_family, deny_by_family}
use authserver.Token.Env.{Env, audited}
use authserver.Token.Reuse.{
  handle_code_reuse, revoke_linked, is_credentialed, run_reuse_halves, revoke_family_half,
  denylist_family_jtis, revoke_half_done, deny_half_done,
}
use authserver.Token.Exchange.{in_transaction, body, rolled_back}
use authserver.Token.Punishment.{Punished, Punished-intro, Working}

rolled_back-err :
    {A : Type 0} (w v : World) (r : Run A) (x : Error)
    → rolled_back w r ≡ err x v
    → v ≡ record w { drawn = v.drawn }
unfolding rolled_back
rolled_back-err w v (ok a u) x h = ground (arith, h)
rolled_back-err w v (err y u) x h =
    subst (λ (r : Run _). final r ≡ record w { drawn = (final r).drawn }) h refl

begin-err :
    {A : Type 0} (e : Env) (m : M A) (w v : World) (x : Error)
    → (reach e.outside begin_tx >> body e m w) w ≡ err x v
    → v ≡ record w { drawn = v.drawn }
unfolding body
begin-err e m w v x h = elim (Bool-cases (e.fails begin_tx)) [
  | inl p ↦ subst (λ (r : Run _). final r ≡ record w { drawn = (final r).drawn }) (rw p at h) refl
  | inr p ↦ rolled_back-err w v _ x (rw p at h)
]

-- Where transactions are wired, a step in a transaction that fails, also at the commit, leaves the
-- database as it was; only random texts stay drawn.
pub in_transaction-atomic :
    {A : Type 0} (e : Env) (m : M A) (w v : World) (x : Error)
    → e.has_transactions ≡ true
    → in_transaction e m w ≡ err x v
    → v ≡ record w { drawn = v.drawn }
unfolding in_transaction
in_transaction-atomic e m w v x t h = begin-err e m w v x (simp t at h)

uncredentialed_of :
    (e : Env) (s : Session) (verifier client_id : String)
    → (is_verified (verify_s256 e.s256 verifier s.code_challenge) ≡ false)
      ⊎ (client_id ≢ s.client_id)
    → is_credentialed e s verifier client_id ≡ false
unfolding is_credentialed
uncredentialed_of e s verifier client_id h = ground (arith, h, eq_iff client_id s.client_id)

credentialed_of :
    (e : Env) (s : Session) (verifier client_id : String)
    → is_verified (verify_s256 e.s256 verifier s.code_challenge) ≡ true
    → client_id ≡ s.client_id
    → is_credentialed e s verifier client_id ≡ true
unfolding is_credentialed
credentialed_of e s verifier client_id h k = ground (arith, h, (eq_iff client_id s.client_id).1 k)

reuse-unchanged :
    (e : Env) (s : Session) (verifier client_id : String) (w : World)
    → is_credentialed e s verifier client_id ≡ false
    → ((final (handle_code_reuse e s verifier client_id w)).families ≡ w.families)
      × ((final (handle_code_reuse e s verifier client_id w)).tokens ≡ w.tokens)
      × ((final (handle_code_reuse e s verifier client_id w)).denied ≡ w.denied)
unfolding handle_code_reuse audited
reuse-unchanged e s verifier client_id w h = ground (arith, h)

-- A replayed code with a verifier that does not fit the challenge of its session, or with another
-- client than the session's, costs nothing: families, refresh tokens and the denylist stay as they
-- are.
pub handle_code_reuse-uncredentialed :
    (e : Env) (s : Session) (verifier client_id : String) (w : World)
    → (is_verified (verify_s256 e.s256 verifier s.code_challenge) ≡ false)
      ⊎ (client_id ≢ s.client_id)
    → ((final (handle_code_reuse e s verifier client_id w)).families ≡ w.families)
      × ((final (handle_code_reuse e s verifier client_id w)).tokens ≡ w.tokens)
      × ((final (handle_code_reuse e s verifier client_id w)).denied ≡ w.denied)
handle_code_reuse-uncredentialed e s verifier client_id w h =
    reuse-unchanged e s verifier client_id w (uncredentialed_of e s verifier client_id h)

replay-effect :
    (e : Env) (s : Session) (verifier client_id : String) (f : Family) (w : World)
    → Working e
    → e.fails family_by_session ≡ false
    → is_credentialed e s verifier client_id ≡ true
    → find (born_of s.id) w.families ≡ some f
    → family_is_active f ≡ true
    → ((final (handle_code_reuse e s verifier client_id w)).families
        ≡ update (revocable f.id) (revoke e.now) w.families)
      × ((final (handle_code_reuse e s verifier client_id w)).tokens
          ≡ update (live_in f.id) (consume e.now) w.tokens)
      × ((final (handle_code_reuse e s verifier client_id w)).denied
          ≡ deny_family f.id w.tracked w.denied)
unfolding handle_code_reuse revoke_linked get_by_auth_session_id run_reuse_halves revoke_family_half
    denylist_family_jtis revoke_half_done deny_half_done deny_by_family revoke_by_id audited
replay-effect e s verifier client_id f w g n c b a =
    ground (arith, g.revokes, g.denies, g.wired, n, c, b, a)

-- Where no store call of the answer fails and the denylist is wired, a code replayed with a verifier
-- that fits its session and with the session's client costs the family that the code had made, if
-- that is the stored family of its id and still active: it is revoked with its refresh tokens and
-- tracked access tokens.
pub handle_code_reuse-Punished :
    (e : Env) (s : Session) (verifier client_id : String) (f : Family) (w : World)
    → Working e
    → e.fails family_by_session ≡ false
    → is_verified (verify_s256 e.s256 verifier s.code_challenge) ≡ true
    → client_id ≡ s.client_id
    → find (born_of s.id) w.families ≡ some f
    → find (has_id f.id) w.families ≡ some f
    → family_is_active f ≡ true
    → Punished f.id w (final (handle_code_reuse e s verifier client_id w))
handle_code_reuse-Punished e s verifier client_id f w g n v c b i a =
    let credentialed = credentialed_of e s verifier client_id v c in
    let (x, y, z) = replay-effect e s verifier client_id f w g n credentialed b a in
    Punished-intro e.now f.id f w (final (handle_code_reuse e s verifier client_id w)) i x y z
