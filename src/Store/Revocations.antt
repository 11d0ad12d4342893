-- ===== src/Store/Revocations.antt =====
-- internal/adapters/sqlite/revocation.go, issuance_store.go and dpop_nonce.go, and `Revoke` of
-- machine_token.go: the denylist of access tokens, the issuance rows, and the DPoP replay tables.
use authserver.Common.{
  String, ℕ, Bool, true, List, [], ◌∷◌, Option, none, some, if◌then◌else◌, ◌==◌, ltb, contains,
  add_key, not, ◌&&◌,
}
use authserver.Domain.Errors.{internal, dpop_replay, dpop_nonce_mismatch}
use authserver.Domain.Entities.{Issuance, MachineToken, is_set}
use authserver.Store.Table.{find, update}
use authserver.Store.Monad.{
  Outside, M, ok, err, ◌>>◌, reach, TrackedJti, track_jti, revoke_by_family, insert_issuance,
  revoke_issuance, consume_dpop_jti, validate_nonce, revoke_machine_token,
}
use authserver.Store.Tokens.{held}

abbrev pub tracks : String → TrackedJti → Bool
tracks jti t = t.jti == jti

-- INSERT OR IGNORE.
unfoldable pub track : Outside → String → String → ℕ → M (Unit {0})
track o jti family expiry = do
  reach o track_jti
  λ w.
      if held (find (tracks jti) w.tracked)
      then ok tt w
      else ok tt (record w {
        tracked = record { jti = jti; family_id = family; expires_at = expiry } ∷ w.tracked;
      })

unfoldable pub deny_family : String → List TrackedJti → List String → List String
deny_family id [] denied = denied
deny_family id (t ∷ ts) denied =
    deny_family id ts (if t.family_id == id then add_key denied t.jti else denied)

unfoldable pub deny_by_family : Outside → String → M (Unit {0})
unfolding deny_family
deny_by_family o id = do
  reach o revoke_by_family
  λ w. ok tt (record w { denied = deny_family id w.tracked w.denied })

abbrev pub issuance_has_id : String → Issuance → Bool
issuance_has_id id i = i.id == id

unfoldable pub insert : Outside → Issuance → M (Unit {0})
insert o i = do
  reach o insert_issuance
  λ w.
      if held (find (issuance_has_id i.id) w.issuances)
      then err internal w
      else ok tt (record w { issuances = i ∷ w.issuances })

unfoldable pub revoke : Outside → String → M (Unit {0})
revoke o id = do
  reach o revoke_issuance
  λ w. ok tt (record w {
    issuances =
        update (λ i. issuance_has_id id i && not (is_set i.revoked_at))
          (λ i. record i { revoked_at = some o.now }) w.issuances;
  })

unfoldable pub consume_jti : Outside → String → M (Unit {0})
consume_jti o jti = do
  reach o consume_dpop_jti
  λ w.
      if contains w.dpop_jtis jti
      then err dpop_replay w
      else ok tt (record w { dpop_jtis = jti ∷ w.dpop_jtis })

abbrev pub is_nonce : String → String × ℕ → Bool
is_nonce n (m, t) = m == n

abbrev check_nonce : Outside → Option (String × ℕ) → M (Unit {0})
check_nonce o none w = err dpop_nonce_mismatch w
check_nonce o (some (m, t)) w = if ltb t o.now then err dpop_nonce_mismatch w else ok tt w

unfoldable pub check_dpop_nonce : Outside → String → M (Unit {0})
check_dpop_nonce o n = do
  reach o validate_nonce
  λ w. check_nonce o (find (is_nonce n) w.dpop_nonces) w

abbrev pub machine_has_jti : String → MachineToken → Bool
machine_has_jti jti t = t.jti == jti

unfoldable pub revoke_machine : Outside → String → M (Unit {0})
revoke_machine o jti = do
  reach o revoke_machine_token
  λ w. ok tt (record w {
    machine_tokens =
        update (machine_has_jti jti) (λ t. record t { revoked = true }) w.machine_tokens;
  })
