-- ===== src/Token/Reuse.antt =====
-- Reuse of a refresh token or of an authorization code: `consumeOrRevokeFamily`, the two halves of a
-- revocation, and `handleCodeReuse` of internal/services/token.go. Metrics and log lines are left
-- out; of a `reuseTarget` that leaves the family.
use authserver.Common.{String, Bool, true, false, ◌==◌, ◌&&◌, if◌then◌else◌}
use authserver.Domain.Errors.{family_revoked, reuse_revocation_failed, refresh_token_reused}
use authserver.Domain.Entities.{Session, Family, RefreshToken, family_is_active}
use authserver.Pkce.{verify_s256, is_verified}
use authserver.Store.Monad.{
  M, Run, ok, err, ◌>>=◌, ◌>>◌, pure, raise, auth_code_reused, family_revoked_event,
  family_revocation_failed, family_denylist_failed,
}
use authserver.Store.Tokens.{revoke_by_id, consume_by_id, get_by_auth_session_id}
use authserver.Store.Revocations.{deny_by_family}
use authserver.Token.Env.{Env, audited}

-- Only a call that revoked the family itself reports it.
unfoldable pub revoke_half_done : Env → String → Run Bool → Run Bool
revoke_half_done e id (ok true w) = (audited e (family_revoked_event id) >> pure true) w
revoke_half_done e id (ok false w) = ok true w
revoke_half_done e id (err x w) = (audited e (family_revocation_failed id) >> pure false) w

-- `revokeFamilyHalf`.
unfoldable pub revoke_family_half : Env → String → M Bool
unfolding revoke_half_done
revoke_family_half e id w = revoke_half_done e id (revoke_by_id e.outside id w)

unfoldable pub deny_half_done : Env → String → Run (Unit {0}) → Run Bool
deny_half_done e id (ok _ w) = ok true w
deny_half_done e id (err x w) = (audited e (family_denylist_failed id) >> pure false) w

-- `denylistFamilyJTIs`.
unfoldable pub denylist_family_jtis : Env → String → M Bool
unfolding deny_half_done
denylist_family_jtis e id =
    if e.has_revocation
    then (λ w. deny_half_done e id (deny_by_family e.outside id w))
    else pure true

-- `runReuseHalves`: both halves run, whatever the first one came to.
unfoldable pub run_reuse_halves : Env → String → M (Bool × Bool)
run_reuse_halves e id = do
  revoked ← revoke_family_half e id
  denied ← denylist_family_jtis e id
  pure (revoked, denied)

-- `revokeFamilyOnReuse`; it always fails.
unfoldable pub revoke_family_on_reuse : Env → String → M (Unit {0})
revoke_family_on_reuse e id = do
  (revoked, denied) ← run_reuse_halves e id
  raise (if revoked then family_revoked else reuse_revocation_failed)

unfoldable pub consume_done : Env → RefreshToken → Run RefreshToken → Run (Unit {0})
consume_done e t (ok _ w) = ok tt w
consume_done e t (err refresh_token_reused w) = revoke_family_on_reuse e t.family_id w
consume_done e t (err x w) = err x w

-- `consumeOrRevokeFamily`.
unfoldable pub consume_or_revoke_family : Env → RefreshToken → M (Unit {0})
unfolding consume_done
consume_or_revoke_family e t w = consume_done e t (consume_by_id e.outside t.id w)

-- A replay counts only with the verifier and the client of the session.
unfoldable pub is_credentialed : Env → Session → String → String → Bool
is_credentialed e s verifier client_id =
    is_verified (verify_s256 e.s256 verifier s.code_challenge) && client_id == s.client_id

unfoldable pub revoke_linked : Env → Run Family → Run (Unit {0})
revoke_linked e (err x w) = ok tt w
revoke_linked e (ok f w) =
    if family_is_active f
    then (run_reuse_halves e f.id >> pure tt) w
    else (denylist_family_jtis e f.id >> pure tt) w

-- `handleCodeReuse`: it reports nothing to its caller.
unfoldable pub handle_code_reuse : Env → Session → String → String → M (Unit {0})
unfolding revoke_linked
handle_code_reuse e s verifier client_id = do
  audited e (auth_code_reused s.id (is_credentialed e s verifier client_id))
  λ w.
      if is_credentialed e s verifier client_id
      then revoke_linked e (get_by_auth_session_id e.outside s.id w)
      else ok tt w
