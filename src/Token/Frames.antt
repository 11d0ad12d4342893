-- ===== src/Token/Frames.antt =====
-- The statements that leave the sessions, families and refresh tokens alone.
use authserver.Common.{String, ℕ, ◌≡◌, refl, arith}
use authserver.Domain.Entities.{Issuance}
use authserver.Store.Monad.{World, Outside, Call, AuditEvent, M, final, draw}
use authserver.Store.Tokens.{get, get_by_auth_session_id, get_by_hash}
use authserver.Store.Revocations.{
  track, deny_by_family, insert, revoke, consume_jti, check_dpop_nonce,
}
use authserver.Token.Env.{Env, audited}

-- The rows that the property reads are left alone.
abbrev pub Framed : {A : Type 0} → M A → Type 0
Framed m =
    (w : World)
    → (w.sessions ≡ (final (m w)).sessions)
      × (w.families ≡ (final (m w)).families)
      × (w.tokens ≡ (final (m w)).tokens)

pub get-Framed : (o : Outside) (k : Call) (id : String) → Framed (get o k id)
unfolding get
get-Framed o k id w = ground arith

pub get_by_auth_session_id-Framed :
    (o : Outside) (id : String) → Framed (get_by_auth_session_id o id)
unfolding get_by_auth_session_id
get_by_auth_session_id-Framed o id w = ground arith

pub get_by_hash-Framed : (o : Outside) (h : String) → Framed (get_by_hash o h)
unfolding get_by_hash
get_by_hash-Framed o h w = ground arith

pub track-Framed : (o : Outside) (jti family : String) (t : ℕ) → Framed (track o jti family t)
unfolding track
track-Framed o jti family t w = ground arith

pub deny_by_family-Framed : (o : Outside) (id : String) → Framed (deny_by_family o id)
unfolding deny_by_family
deny_by_family-Framed o id w = ground arith

pub insert-Framed : (o : Outside) (i : Issuance) → Framed (insert o i)
unfolding insert
insert-Framed o i w = ground arith

pub revoke-Framed : (o : Outside) (id : String) → Framed (revoke o id)
unfolding revoke
revoke-Framed o id w = ground arith

pub consume_jti-Framed : (o : Outside) (jti : String) → Framed (consume_jti o jti)
unfolding consume_jti
consume_jti-Framed o jti w = ground arith

pub check_dpop_nonce-Framed : (o : Outside) (n : String) → Framed (check_dpop_nonce o n)
unfolding check_dpop_nonce
check_dpop_nonce-Framed o n w = ground arith

pub audited-Framed : (e : Env) (ev : AuditEvent) → Framed (audited e ev)
unfolding audited
audited-Framed e ev w = ground arith

pub draw-Framed : (o : Outside) → Framed (draw o)
draw-Framed o w = (refl, refl, refl)
