-- ===== src/Token/Granted.antt =====
-- What a code exchange of internal/services/token.go has passed, and grants, when it succeeds.
use authserver.Common.{
  String, ℕ, ◌+◌, Bool, true, false, some, List, ◌∷◌, ◌≡◌, refl, sym, ap, ◌∙◌, arith, eq_refl,
  Bool-cases, inl, inr,
}
use authserver.Domain.Clients.{Client}
use authserver.Domain.Entities.{Family}
use authserver.Store.Table.{find}
use authserver.Store.Monad.{
  World, Outside, M, Run, ok, err, ◌>>◌, >>=-eq-ok, begin_tx, AuditEvent, pure, token_issued,
}
use authserver.Store.Tokens.{has_id, insert_family, insert_token}
use authserver.Store.Revocations.{track}
use authserver.Token.Env.{Env, audited}
use authserver.Token.Dpop.{bind_dpop}
use authserver.Token.Mint.{IssueRequest, IssueResponse, issue, claims_of}
use authserver.Token.Refresh.{TokenResponse, track_jti, create_refresh_token}
use authserver.Token.Exchange.{
  ExchangeRequest, Accepted, check_code, mint_for_code, code_response, family_of, issue_for_code,
  maybe_refresh, body, rolled_back, committed, in_transaction, create_family_and_refresh,
  exchange_checked, exchange_code, refuse,
}
use authserver.Token.Redeemed.{Opened, Redeemable, check_code-ok, reached}

-- The token, the family and the scope that an exchange ends with.
pub record Issued (e : Env) (k : Accepted) (u : World) (r : TokenResponse) : Type 0 where
  pub jkt : String
  pub jti : String
  pub signed : r.access_token ≡ e.sign_claims (claims_of e (mint_for_code e k jkt) jti)
  pub family_id : String
  pub stored : find (has_id family_id) u.families ≡ some (family_of e k.session family_id)
  pub scoped : r.scope ≡ k.session.scope

issue-ok :
    (e : Env) (req : IssueRequest) (w u : World) (r : IssueResponse)
    → issue e req w ≡ ok r u
    → r.access_token ≡ e.sign_claims (claims_of e req r.issuance_id)
unfolding issue
issue-ok e req w u r h = ground arith

create_refresh_token-families :
    (e : Env) (id : String) (w u : World) (plain : String)
    → create_refresh_token e id w ≡ ok plain u
    → u.families ≡ w.families
unfolding create_refresh_token insert_token
create_refresh_token-families e id w u plain h = ground arith

maybe_refresh-families :
    (b : Bool) (e : Env) (id : String) (w u : World) (plain : String)
    → maybe_refresh b e id w ≡ ok plain u
    → u.families ≡ w.families
unfolding maybe_refresh
maybe_refresh-families true e id w u plain h = create_refresh_token-families e id w u plain h
maybe_refresh-families false e id w u plain h = ground arith

track_jti-families :
    (e : Env) (jti id : String) (t : ℕ) (w u : World) (x : Unit {0})
    → track_jti e jti id t w ≡ ok x u
    → u.families ≡ w.families
unfolding track_jti track
track_jti-families e jti id t w u x h = ground arith

insert_family-ok :
    (o : Outside) (f : Family) (w u : World) (x : Unit {0})
    → insert_family o f w ≡ ok x u
    → u.families ≡ f ∷ w.families
unfolding insert_family
insert_family-ok o f w u x h = ground arith

first-found : (f : Family) (fs gs : List Family) → gs ≡ f ∷ fs → find (has_id f.id) gs ≡ some f
first-found f fs gs h = rw (h, eq_refl f.id) refl

create-ok :
    (e : Env) (c : Client) (f : Family) (jti : String) (t : ℕ) (w u : World) (plain : String)
    → create_family_and_refresh e c f jti t w ≡ ok plain u
    → find (has_id f.id) u.families ≡ some f
unfolding create_family_and_refresh
create-ok e c f jti t w u plain h =
    let (x, v, a, b) = >>=-eq-ok (insert_family e.outside f) _ w u plain h in
    let (y, z, d, g) = >>=-eq-ok (track_jti e jti f.id t) _ v u plain b in
    first-found f w.families u.families (
      maybe_refresh-families _ e f.id z u plain g
      ∙ track_jti-families e jti f.id t v z y d
      ∙ insert_family-ok e.outside f w v x a)

rolled_back-ok :
    {A : Type 0} (v u : World) (r : Run A) (a : A) → rolled_back v r ≡ ok a u → r ≡ ok a u
unfolding rolled_back
rolled_back-ok v u (ok b x) a h = h
rolled_back-ok v u (err y x) a h = ground arith

committed-ok :
    {A : Type 0} (e : Env) (v w u : World) (b a : A) → committed e v b w ≡ ok a u → ok b w ≡ ok a u
unfolding committed
committed-ok e v w u b a h = ground arith

body-ok :
    {A : Type 0} (e : Env) (m : M A) (v w u : World) (a : A) → body e m v w ≡ ok a u → m w ≡ ok a u
unfolding body
body-ok e m v w u a h =
    let (b, x, p, q) = >>=-eq-ok m (committed e v) w u a (rolled_back-ok v u _ a h) in
    p ∙ committed-ok e v x u b a q

pub in_transaction-ok :
    {A : Type 0} (e : Env) (m : M A) (w u : World) (a : A)
    → in_transaction e m w ≡ ok a u
    → m w ≡ ok a u
unfolding in_transaction
in_transaction-ok e m w u a h = elim (Bool-cases e.has_transactions) [
  | inl p ↦ body-ok e m w w u a (reached e.outside begin_tx (body e m w) w u a (simp p at h))
  | inr p ↦ simp p at h
]

audited-ok :
    (e : Env) (ev : AuditEvent) (r s : TokenResponse) (w u : World)
    → (audited e ev >> pure s) w ≡ ok r u
    → (s ≡ r) × (u.families ≡ w.families)
unfolding audited
audited-ok e ev r s w u h = ground arith

issue_for_code-ok :
    (e : Env) (req : ExchangeRequest) (k : Accepted) (w u : World) (r : TokenResponse)
    → issue_for_code e req k w ≡ ok r u
    → Issued e k u r
unfolding issue_for_code code_response
issue_for_code-ok e req k w u r h =
    let (jkt, x, _, b) =
      >>=-eq-ok (bind_dpop e req.dpop_proof req.http_method req.http_url) _ w u r h in
    let (resp, y, c, d) = >>=-eq-ok (issue e (mint_for_code e k jkt)) _ x u r b in
    let id = e.random y.drawn in
    let f = family_of e k.session id in
    let create =
      create_family_and_refresh e k.client f resp.issuance_id (e.now + e.access_expiry) in
    let z = record y { drawn = y.drawn + 1 } in
    let (plain, v, i, j) = >>=-eq-ok (in_transaction e create) _ z u r d in
    let (same, g) = audited-ok e (token_issued id) r (code_response e k resp plain) v u j in
    record {
      jkt = jkt;
      jti = resp.issuance_id;
      signed = ap (λ t. t.access_token) (sym same) ∙ issue-ok e (mint_for_code e k jkt) x y resp c;
      family_id = id;
      stored =
          ap (find (has_id id)) g
          ∙ create-ok e k.client f resp.issuance_id _ z v plain
              (in_transaction-ok e create z v plain i);
      scoped = ap (λ t. t.scope) (sym same);
    }

-- What an exchange that has succeeded has checked, and what it has made.
pub record Exchanged (e : Env) (req : ExchangeRequest) (w u : World) (r : TokenResponse)
    : Type 0 where
  pub accepted : Accepted
  pub opened : Opened e.outside (e.hash req.code) w accepted.session
  pub redeemable : Redeemable e req accepted
  pub issued : Issued e accepted u r

refuse-ok :
    (e : Env) (id : String) (s : Run TokenResponse) (u : World) (r : TokenResponse)
    → refuse e id s ≡ ok r u
    → s ≡ ok r u
unfolding refuse audited
refuse-ok e id (ok a w) u r h = h
refuse-ok e id (err x w) u r h = ground arith

-- A code exchange that succeeds found an open session with its code, and accepted the session that
-- the code names in the database once that one is stamped as consumed. That session had not expired,
-- its client, redirect URI, PKCE challenge and resource fit the request, and its client is
-- registered, active and authenticated. The access token is the signed claims of that session, a new
-- active family of that session is stored, and the scope is the session's.
pub exchange_code-Exchanged :
    (e : Env) (req : ExchangeRequest) (w u : World) (r : TokenResponse)
    → exchange_code e req w ≡ ok r u
    → Exchanged e req w u r
unfolding exchange_code exchange_checked
exchange_code-Exchanged e req w u r h =
    let s = refuse-ok e req.client_id (exchange_checked e req w) u r h in
    let (k, x, a, b) = >>=-eq-ok (check_code e req) _ w u r s in
    let (o, t) = check_code-ok e req w x k a in
    record { accepted = k; opened = o; redeemable = t; issued = issue_for_code-ok e req k x u r b }
