-- ===== src/Token/Grants.antt =====
-- The two grants keep every closed property, on every path, errors included.
use authserver.Common.{String, ℕ, ◌+◌, Bool, true, false, refl, Bool-cases, inl, inr, arith}
use authserver.Domain.Errors.{family_revoked, code_consumed}
use authserver.Domain.Clients.{Client}
use authserver.Domain.Entities.{Session, Family, family_is_active}
use authserver.Store.Monad.{
  World, Outside, M, Run, ok, err, final, ◌>>=◌, Keeps, >>=-Keeps, >>-Keeps, pure-Keeps,
  raise-Keeps, reach-Keeps, draw, recheck_family, token_config, begin_tx, commit_tx, token_issued,
  token_issue_denied, token_refresh_denied,
}
use authserver.Store.Sessions.{Redeemed, fresh, used, refused}
use authserver.Store.Tokens.{get, get_by_hash}
use authserver.Store.Revocations.{track, revoke}
use authserver.Token.Env.{Env}
use authserver.Token.Frames
use authserver.Token.Keeps
use authserver.Token.Keeps.{Closed}
use authserver.Token.Mint.{IssueResponse}
use authserver.Token.Auth.{
  authenticate_client, authenticate_found, validate_requested_resource, check_subject,
  check_subject_refresh,
}
use authserver.Token.Refresh.{
  RefreshRequest, TokenResponse, create_refresh_token, track_jti, Checked, check_refresh,
  mint_token, mint_refreshed, revoke_row, rest_of, new_token, refuse_revoked, rechecked,
  finish_refresh, meanwhile, refresh_checked, refresh_token, invalid_grant_of, scope_or_refuse,
}
use authserver.Token.Refresh
use authserver.Token.Exchange.{
  ExchangeRequest, redeemed, Accepted, check_session, check_code, mint_for_code, code_response,
  family_of, rolled_back, committed, body, maybe_refresh, in_transaction, create_family_and_refresh,
  issue_for_code, exchange_checked, exchange_code,
}
use authserver.Token.Exchange

module _ {P : World → Type 0} (c : Closed P) where
  draw-Keeps : (o : Outside) → Keeps P (draw o)
  draw-Keeps o = Keeps.framed c (Frames.draw-Framed o)

  create_refresh_token-Keeps : (e : Env) (id : String) → Keeps P (create_refresh_token e id)
  unfolding create_refresh_token
  create_refresh_token-Keeps e id = >>=-Keeps (draw-Keeps e.outside) λ plain.
      >>=-Keeps (draw-Keeps e.outside)
        λ t. >>-Keeps (c.add_token e.outside (new_token e id plain t)) (pure-Keeps plain)

  track_jti-Keeps : (e : Env) (jti id : String) (t : ℕ) → Keeps P (track_jti e jti id t)
  unfolding track_jti track
  track_jti-Keeps e jti id t = Keeps.framed c (λ w. ground arith)

  check_refresh-Keeps : (e : Env) (req : RefreshRequest) → Keeps P (check_refresh e req)
  unfolding check_refresh get_by_hash get authenticate_client authenticate_found
      validate_requested_resource
  check_refresh-Keeps e req = Keeps.framed c (λ w. ground arith)

  check_subject_refresh-Keeps : (e : Env) (id : String) → Keeps P (check_subject_refresh e id)
  unfolding check_subject_refresh
  check_subject_refresh-Keeps e id = Keeps.framed c (λ w. ground arith)

  pub mint_token-Keeps :
      (e : Env) (req : RefreshRequest) (k : Checked) → Keeps P (mint_token e req k)
  unfolding mint_token
  mint_token-Keeps e req k = >>-Keeps (check_subject_refresh-Keeps e _) (
      >>=-Keeps (Keeps.bind_dpop-Keeps c e _ _ _) λ jkt.
        >>=-Keeps (Keeps.issue-Keeps c e _)
          λ resp. >>-Keeps (track_jti-Keeps e _ _ _) (pure-Keeps resp))

  mint_refreshed-Keeps :
      (e : Env) (req : RefreshRequest) (k : Checked) → Keeps P (mint_refreshed e req k)
  unfolding mint_refreshed
  mint_refreshed-Keeps e req k =
      >>-Keeps (Keeps.consume_or_revoke_family-Keeps c e k.token) (mint_token-Keeps e req k)

  rest_of-Keeps : (e : Env) (k : Checked) (resp : IssueResponse) → Keeps P (rest_of e k resp)
  unfolding rest_of
  rest_of-Keeps e k resp =
      >>=-Keeps (create_refresh_token-Keeps e _)
        λ plain. >>-Keeps (Keeps.audited-Keeps c e _) (pure-Keeps _)

  revoke_row-Keeps : (e : Env) (id : String) → Keeps P (revoke_row e id)
  unfolding revoke_row revoke
  revoke_row-Keeps e id = Keeps.framed c (λ w. ground arith)

  rechecked-Keeps :
      (e : Env) (k : Checked) (resp : IssueResponse) (f : Family) → Keeps P (rechecked e k resp f)
  unfolding rechecked refuse_revoked
  rechecked-Keeps e k resp f = elim (Bool-cases (family_is_active f)) [
    | inl p ↦ rw p (rest_of-Keeps e k resp)
    | inr p ↦ rw p (>>-Keeps (revoke_row-Keeps e resp.issuance_id) (raise-Keeps family_revoked))
  ]

  pub finish_refresh-Keeps :
      (e : Env) (k : Checked) (resp : IssueResponse) → Keeps P (finish_refresh e k resp)
  unfolding finish_refresh
  finish_refresh-Keeps e k resp =
      >>=-Keeps (Keeps.framed c (Frames.get-Framed e.outside recheck_family k.family.id))
        (rechecked-Keeps e k resp)

  pub meanwhile-Keeps : (e : Env) → ((w : World) → P w → P (e.others w)) → Keeps P (meanwhile e)
  unfolding meanwhile
  meanwhile-Keeps e others = record { apply = others }

  refresh_checked-Keeps :
      (e : Env) (req : RefreshRequest)
      → ((w : World) → P w → P (e.others w))
      → Keeps P (refresh_checked e req)
  unfolding refresh_checked
  refresh_checked-Keeps e req others = >>=-Keeps (check_refresh-Keeps e req) λ k.
      >>=-Keeps (mint_refreshed-Keeps e req k)
        λ resp. >>-Keeps (meanwhile-Keeps e others) (finish_refresh-Keeps e k resp)

  pub refresh_refuse-Keeps :
      (e : Env) (id : String) (r : Run TokenResponse)
      → P (final r)
      → P (final (Refresh.refuse e id r))
  unfolding Refresh.refuse
  refresh_refuse-Keeps e id (ok r w) h = h
  refresh_refuse-Keeps e id (err x w) h =
      (>>-Keeps (Keeps.audited-Keeps c e (token_refresh_denied id x))
          (raise-Keeps {A = TokenResponse} x)).apply
        w h

  -- Whatever a refresh request ends in, a closed property that other requests keep still holds.
  pub refresh_token-Keeps :
      (e : Env) (req : RefreshRequest)
      → ((w : World) → P w → P (e.others w))
      → Keeps P (refresh_token e req)
  unfolding refresh_token
  refresh_token-Keeps e req others = record {
    apply = λ w h.
        refresh_refuse-Keeps e req.client_id (refresh_checked e req w)
          ((refresh_checked-Keeps e req others).apply w h);
  }

  maybe_refresh-Keeps : (b : Bool) (e : Env) (id : String) → Keeps P (maybe_refresh b e id)
  unfolding maybe_refresh
  maybe_refresh-Keeps true e id = create_refresh_token-Keeps e id
  maybe_refresh-Keeps false e id = pure-Keeps ""

  create_family_and_refresh-Keeps :
      (e : Env) (k : Client) (f : Family) (jti : String) (t : ℕ)
      → Keeps P (create_family_and_refresh e k f jti t)
  unfolding create_family_and_refresh
  create_family_and_refresh-Keeps e k f jti t =
      >>-Keeps (c.add_family e.outside f)
        (>>-Keeps (track_jti-Keeps e jti f.id t) (maybe_refresh-Keeps _ e f.id))

  committed-Keeps : {A : Type 0} (e : Env) (w : World) → P w → (a : A) → Keeps P (committed e w a)
  unfolding committed
  committed-Keeps e w h a = record {
    apply = λ v k. elim (Bool-cases (e.fails commit_tx)) [
      | inl p ↦ rw p (c.frame w _ refl refl refl h)
      | inr p ↦ rw p k
    ];
  }

  rolled_back-Keeps :
      {A : Type 0} (w : World) (r : Run A) → P w → P (final r) → P (final (rolled_back w r))
  unfolding rolled_back
  rolled_back-Keeps w (ok a v) h k = k
  rolled_back-Keeps w (err x v) h k = c.frame w _ refl refl refl h

  body-Keeps : {A : Type 0} (e : Env) (m : M A) (w : World) → Keeps P m → P w → Keeps P (body e m w)
  unfolding body
  body-Keeps e m w k h = record {
    apply = λ v g.
        rolled_back-Keeps w ((m >>= committed e w) v) h
          ((>>=-Keeps k (committed-Keeps e w h)).apply v g);
  }

  in_transaction-Keeps : {A : Type 0} (e : Env) (m : M A) → Keeps P m → Keeps P (in_transaction e m)
  unfolding in_transaction
  in_transaction-Keeps e m k = record {
    apply = λ w h. elim (Bool-cases e.has_transactions) [
      | inl p ↦
          simp p ((>>-Keeps (reach-Keeps e.outside begin_tx) (body-Keeps e m w k h)).apply w h)
      | inr p ↦ simp p (k.apply w h)
    ];
  }

  pub redeemed-Keeps : (e : Env) (req : ExchangeRequest) (r : Redeemed) → Keeps P (redeemed e req r)
  unfolding redeemed
  redeemed-Keeps e req (fresh s) = pure-Keeps s
  redeemed-Keeps e req (used s) =
      >>-Keeps (Keeps.handle_code_reuse-Keeps c e s req.code_verifier req.client_id)
        (raise-Keeps code_consumed)
  redeemed-Keeps e req (refused x) = raise-Keeps x

  pub check_session-Keeps :
      (e : Env) (req : ExchangeRequest) (s : Session) → Keeps P (check_session e req s)
  unfolding check_session authenticate_client authenticate_found validate_requested_resource
      check_subject
  check_session-Keeps e req s = Keeps.framed c (λ w. ground arith)

  check_code-Keeps : (e : Env) (req : ExchangeRequest) → Keeps P (check_code e req)
  unfolding check_code
  check_code-Keeps e req = >>-Keeps (reach-Keeps e.outside token_config) (
      >>=-Keeps (c.redeem e.outside (e.hash req.code))
        λ r. >>=-Keeps (redeemed-Keeps e req r) (check_session-Keeps e req))

  pub issue_for_code-Keeps :
      (e : Env) (req : ExchangeRequest) (k : Accepted) → Keeps P (issue_for_code e req k)
  unfolding issue_for_code
  issue_for_code-Keeps e req k =
      >>=-Keeps (Keeps.bind_dpop-Keeps c e req.dpop_proof req.http_method req.http_url) λ jkt.
        >>=-Keeps (Keeps.issue-Keeps c e (mint_for_code e k jkt)) λ resp.
          >>=-Keeps (draw-Keeps e.outside) λ id.
            >>=-Keeps
              (in_transaction-Keeps e _ (
                create_family_and_refresh-Keeps e k.client (family_of e k.session id)
                  resp.issuance_id (e.now + e.access_expiry)))
              λ plain.
                >>-Keeps (Keeps.audited-Keeps c e (token_issued id))
                  (pure-Keeps (code_response e k resp plain))

  pub refuse-Keeps :
      (e : Env) (id : String) (r : Run TokenResponse)
      → P (final r)
      → P (final (Exchange.refuse e id r))
  unfolding Exchange.refuse
  refuse-Keeps e id (ok r w) h = h
  refuse-Keeps e id (err x w) h =
      (>>-Keeps (Keeps.audited-Keeps c e (token_issue_denied id x))
          (raise-Keeps {A = TokenResponse} x)).apply
        w h

  -- Whatever a code exchange ends in, a closed property still holds.
  pub exchange_code-Keeps : (e : Env) (req : ExchangeRequest) → Keeps P (exchange_code e req)
  unfolding exchange_code exchange_checked
  exchange_code-Keeps e req = record {
    apply = λ w h.
        refuse-Keeps e req.client_id (exchange_checked e req w)
          ((>>=-Keeps (check_code-Keeps e req) (issue_for_code-Keeps e req)).apply w h);
  }
