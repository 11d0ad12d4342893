-- ===== src/Token/Keeps.antt =====
-- What the grants keep: a property of the sessions, families and refresh tokens that the statements
-- of the stores keep, and other requests too, is kept by both grants, on every path.
use authserver.Common.{String, ℕ, Bool, true, false, ◌≡◌, Bool-cases, inl, inr, arith}
use authserver.Domain.Errors.{refresh_token_reused}
use authserver.Domain.Entities.{Session, Family, RefreshToken, family_is_active}
use authserver.Store.Monad.{
  World, Outside, AuditEvent, M, Run, ok, err, final, Keeps, >>=-Keeps, >>-Keeps, pure-Keeps,
  raise-Keeps,
}
use authserver.Store.Sessions.{consume_by_code_hash}
use authserver.Store.Tokens.{
  insert_family, revoke_by_id, insert_token, consume_by_id, get_by_auth_session_id,
}
use authserver.Store.Revocations.{deny_by_family, insert, check_dpop_nonce, consume_jti}
use authserver.Token.Env.{Env, audited}
use authserver.Token.Frames
use authserver.Token.Frames.{Framed}
use authserver.Token.Dpop.{
  validate_proof, require_nonce_of, check_enabled, validate_with, validate_dpop, bind_dpop,
  finish_proof,
}
use authserver.Token.Mint.{IssueRequest, issue}
use authserver.Token.Auth.{authenticate_client, authenticate_found}
use authserver.Token.Reuse.{
  revoke_half_done, revoke_family_half, denylist_family_jtis, run_reuse_halves,
  revoke_family_on_reuse, consume_done, consume_or_revoke_family, revoke_linked, is_credentialed,
  handle_code_reuse,
}

-- The statements that write sessions, families or tokens keep `P`, and nothing else matters to it.
pub record Closed (P : World → Type 0) : Type 0 where
  pub frame :
      (w v : World)
      → w.sessions ≡ v.sessions
      → w.families ≡ v.families
      → w.tokens ≡ v.tokens
      → P w
      → P v
  pub redeem : (o : Outside) (h : String) → Keeps P (consume_by_code_hash o h)
  pub add_family : (o : Outside) (f : Family) → Keeps P (insert_family o f)
  pub revoke_family : (o : Outside) (id : String) → Keeps P (revoke_by_id o id)
  pub add_token : (o : Outside) (t : RefreshToken) → Keeps P (insert_token o t)
  pub consume_token : (o : Outside) (id : String) → Keeps P (consume_by_id o id)

pub bind_dpop-Framed : (e : Env) (proof method url : String) → Framed (bind_dpop e proof method url)
unfolding bind_dpop validate_dpop validate_with check_enabled require_nonce_of validate_proof
    consume_jti check_dpop_nonce
bind_dpop-Framed e proof method url w = ground arith

pub issue-Framed : (e : Env) (req : IssueRequest) → Framed (issue e req)
unfolding issue insert
issue-Framed e req w = ground arith

module _ {P : World → Type 0} (c : Closed P) where
  pub framed : {A : Type 0} {m : M A} → Framed m → Keeps P m
  framed {m} f = record { apply = λ w h. c.frame w (final (m w)) (f w).0 (f w).1 (f w).2 h }

  validate_proof-Keeps :
      (e : Env) (proof method url nonce hash : String) (t : ℕ)
      → Keeps P (validate_proof e proof method url nonce hash t)
  unfolding validate_proof finish_proof
  validate_proof-Keeps e proof method url nonce hash t = framed (λ w. ground arith)

  pub authenticate_client-Keeps :
      (e : Env) (id secret : String) → Keeps P (authenticate_client e id secret)
  unfolding authenticate_client authenticate_found
  authenticate_client-Keeps e id secret = framed (λ w. ground arith)

  pub bind_dpop-Keeps :
      (e : Env) (proof method url : String) → Keeps P (bind_dpop e proof method url)
  bind_dpop-Keeps e proof method url = framed (bind_dpop-Framed e proof method url)

  pub issue-Keeps : (e : Env) (req : IssueRequest) → Keeps P (issue e req)
  issue-Keeps e req = framed (issue-Framed e req)

  pub audited-Keeps : (e : Env) (ev : AuditEvent) → Keeps P (audited e ev)
  audited-Keeps e ev = framed (Frames.audited-Framed e ev)

  revoke_family_half-Keeps : (e : Env) (id : String) → Keeps P (revoke_family_half e id)
  unfolding revoke_family_half
  revoke_family_half-Keeps e id = record {
    apply = λ w h. done (revoke_by_id e.outside id w) ((c.revoke_family e.outside id).apply w h);
  }
    where
      done : (r : Run Bool) → P (final r) → P (final (revoke_half_done e id r))
      done (ok true w) h = (>>-Keeps (audited-Keeps e _) (pure-Keeps true)).apply w h
      done (ok false w) h = h
      done (err x w) h = (>>-Keeps (audited-Keeps e _) (pure-Keeps false)).apply w h

  denylist_family_jtis-Keeps : (e : Env) (id : String) → Keeps P (denylist_family_jtis e id)
  unfolding denylist_family_jtis deny_by_family audited
  denylist_family_jtis-Keeps e id = framed (λ w. ground arith)

  run_reuse_halves-Keeps : (e : Env) (id : String) → Keeps P (run_reuse_halves e id)
  unfolding run_reuse_halves
  run_reuse_halves-Keeps e id =
      >>=-Keeps (revoke_family_half-Keeps e id)
        (λ r. >>=-Keeps (denylist_family_jtis-Keeps e id) (λ d. pure-Keeps (r, d)))

  pub consume_or_revoke_family-Keeps :
      (e : Env) (t : RefreshToken) → Keeps P (consume_or_revoke_family e t)
  unfolding consume_or_revoke_family revoke_family_on_reuse
  consume_or_revoke_family-Keeps e t = record {
    apply =
        λ w h. done (consume_by_id e.outside t.id w) ((c.consume_token e.outside t.id).apply w h);
  }
    where
      done : (r : Run RefreshToken) → P (final r) → P (final (consume_done e t r))
      done (ok a w) h = h
      done (err refresh_token_reused w) h =
          (>>=-Keeps (run_reuse_halves-Keeps e t.family_id) (λ d. raise-Keeps _)).apply w h
      done (err x w) h = h

  pub handle_code_reuse-Keeps :
      (e : Env) (s : Session) (verifier client_id : String)
      → Keeps P (handle_code_reuse e s verifier client_id)
  unfolding handle_code_reuse
  handle_code_reuse-Keeps e s verifier client_id = >>-Keeps (audited-Keeps e _) (record {
    apply = λ w h. elim (Bool-cases (is_credentialed e s verifier client_id)) [
      | inl p ↦ rw p (linked (get_by_auth_session_id e.outside s.id w) (looked_up.apply w h))
      | inr p ↦ rw p h
    ];
  })
    where
      looked_up : Keeps P (get_by_auth_session_id e.outside s.id)
      looked_up = framed (Frames.get_by_auth_session_id-Framed e.outside s.id)

      linked : (r : Run Family) → P (final r) → P (final (revoke_linked e r))
      linked (err x w) h = h
      linked (ok f w) h = elim (Bool-cases (family_is_active f)) [
        | inl p ↦ rw p ((>>-Keeps (run_reuse_halves-Keeps e f.id) (pure-Keeps tt)).apply w h)
        | inr p ↦ rw p ((>>-Keeps (denylist_family_jtis-Keeps e f.id) (pure-Keeps tt)).apply w h)
      ]
