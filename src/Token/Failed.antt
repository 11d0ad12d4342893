-- ===== src/Token/Failed.antt =====
-- What a code exchange of internal/services/token.go leaves behind when it fails.
use authserver.Common.{
  ◌+◌, String, true, false, Bool, some, ◌≡◌, ◌≢◌, refl, subst, arith, ◌&&◌, inl, inr, Bool-cases,
  Option-cases,
}
use authserver.Domain.Errors.{Error}
use authserver.Domain.Entities.{Session}
use authserver.Store.Table.{find}
use authserver.Store.Monad.{
  World, M, Run, ok, err, final, Run-cases, ◌>>=◌, ◌>>◌, >>=-eq-err, Keeps, token_config,
  consume_code, token_issued, pure, draw,
}
use authserver.Store.Sessions.{
  consume_by_code_hash, Redeemed, fresh, used, refused, has_code, is_open,
}
use authserver.Token.Redeemed.{stamped}
use authserver.Token.Env.{Env, audited}
use authserver.Token.Auth.{
  validate_requested_resource, authenticate_client, authenticate_found, check_subject,
}
use authserver.Token.Dpop.{bind_dpop}
use authserver.Token.Mint.{issue, IssueResponse}
use authserver.Token.Refresh.{TokenResponse}
use authserver.Token.Frames.{Framed}
use authserver.Token.Frames
use authserver.Token.Keeps.{bind_dpop-Framed, issue-Framed}
use authserver.Token.Exchange.{
  ExchangeRequest, Accepted, redeemed, check_session, check_code, issue_for_code, exchange_checked,
  exchange_code, refuse, in_transaction, create_family_and_refresh, mint_for_code, family_of,
  code_response,
}
use authserver.Token.Atomic.{in_transaction-atomic}

-- No family and no refresh token has come or gone between two databases.
abbrev pub Unmade : World → World → Type 0
Unmade w v = (v.families ≡ w.families) × (v.tokens ≡ w.tokens)

-- What a step keeps when it fails.
abbrev Errs : {A : Type 0} → (World → Type 0) → M A → Type 0
Errs P m = (w u : World) (x : Error) → P w → m w ≡ err x u → P u

module _ (w : World) where
  spared : {A : Type 0} {m : M A} → Framed m → Keeps (Unmade w) m
  spared {m} f = record { apply = λ v h. ground (arith, f v, h) }

  then-Errs :
      {A B : Type 0} (m : M A) (f : A → M B)
      → Keeps (Unmade w) m
      → ((a : A) → Errs (Unmade w) (f a))
      → Errs (Unmade w) (m >>= f)
  then-Errs m f k g v u x h q = elim (>>=-eq-err m f v u x q) [
    | inl p ↦ subst (λ r. Unmade w (final r)) p (k.apply v h)
    | inr (a, z, p, r) ↦ g a z u x (subst (λ t. Unmade w (final t)) p (k.apply v h)) r
  ]

  created-Errs :
      (e : Env) (m : M String) (id : String) (f : String → TokenResponse)
      → e.has_transactions ≡ true
      → Errs
          (Unmade w)
          (in_transaction e m >>= λ plain. audited e (token_issued id) >> pure (f plain))
  unfolding audited
  created-Errs e m id f wired v u x h q =
      elim (>>=-eq-err (in_transaction e m) (λ plain. audited e (token_issued id) >> pure (f plain))
        v u x q) [
          | inl p ↦ rw (in_transaction-atomic e m v u x wired p) h
          | inr (a, z, p, r) ↦ elim (Bool-cases e.has_audit) [
            | inl t ↦ ground (arith, t, r)
            | inr t ↦ ground (arith, t, r)
          ]
        ]

  abbrev creation : Env → Accepted → IssueResponse → String → M String
  creation e k resp id =
      create_family_and_refresh e k.client (family_of e k.session id) resp.issuance_id
        (e.now + e.access_expiry)

  issue_for_code-Errs :
      (e : Env) (req : ExchangeRequest) (k : Accepted)
      → e.has_transactions ≡ true
      → Errs (Unmade w) (issue_for_code e req k)
  unfolding issue_for_code
  issue_for_code-Errs e req k wired =
      then-Errs (bind_dpop e req.dpop_proof req.http_method req.http_url) _
        (spared (bind_dpop-Framed e req.dpop_proof req.http_method req.http_url))
        λ jkt.
          then-Errs (issue e (mint_for_code e k jkt)) _
            (spared (issue-Framed e (mint_for_code e k jkt)))
            λ resp.
              then-Errs (draw e.outside) _ (spared (Frames.draw-Framed e.outside))
                λ id. created-Errs e (creation e k resp id) id (code_response e k resp) wired

  check_session-Framed :
      (e : Env) (req : ExchangeRequest) (s : Session) → Framed (check_session e req s)
  unfolding check_session authenticate_client authenticate_found validate_requested_resource
      check_subject
  check_session-Framed e req s v = ground arith

  abbrev is_used : Redeemed → Bool
  is_used (used s) = true
  is_used _ = false

  redeemed-Unmade :
      (e : Env) (req : ExchangeRequest) (r : Redeemed) (v : World)
      → is_used r ≡ false
      → Unmade w v
      → Unmade w (final ((redeemed e req r >>= check_session e req) v))
  unfolding redeemed
  redeemed-Unmade e req (fresh s) v n h =
      (spared {m = check_session e req s} (check_session-Framed e req s)).apply v h
  redeemed-Unmade e req (used s) v n h = ground (arith, n)
  redeemed-Unmade e req (refused x) v n h = h

  -- An open session makes its code one that has not been used.
  consume-Unmade :
      (e : Env) (h : String) (s : Session) (v : World) (r : Redeemed)
      → find (λ t. has_code h t && is_open t) w.sessions ≡ some s
      → consume_by_code_hash e.outside h w ≡ ok r v
      → (is_used r ≡ false) × Unmade w v
  unfolding consume_by_code_hash
  consume-Unmade e h s v r p q = elim (Bool-cases (e.fails consume_code)) [
    | inl t ↦ ground (arith, t, q)
    | inr t ↦ elim (Option-cases (find (has_code h) (stamped e.outside h w))) [
      | inl m ↦ ground (arith, t, p, m, q)
      | inr (a, m) ↦ ground (arith, t, p, m, q)
    ]
  ]

  consume-answers :
      (e : Env) (h : String) (s : Session) (v : World) (x : Error)
      → find (λ t. has_code h t && is_open t) w.sessions ≡ some s
      → consume_by_code_hash e.outside h w ≢ err x v
  unfolding consume_by_code_hash
  consume-answers e h s v x p q = elim (Bool-cases (e.fails consume_code)) [
    | inl t ↦ ground (arith, t, q)
    | inr t ↦ elim (Option-cases (find (has_code h) (stamped e.outside h w))) [
      | inl m ↦ ground (arith, t, p, m, q)
      | inr (a, m) ↦ ground (arith, t, p, m, q)
    ]
  ]

  check_code-Unmade :
      (e : Env) (req : ExchangeRequest) (s : Session)
      → find (λ t. has_code (e.hash req.code) t && is_open t) w.sessions ≡ some s
      → Unmade w (final (check_code e req w))
  unfolding check_code
  check_code-Unmade e req s p = elim (Bool-cases (e.fails token_config)) [
    | inl t ↦ rw t (refl, refl)
    | inr t ↦ elim (Run-cases (consume_by_code_hash e.outside (e.hash req.code) w)) [
      | inl (r, v, q) ↦
          let (n, h) = consume-Unmade e (e.hash req.code) s v r p q in
          rw (t, ◌>>=◌, q) (redeemed-Unmade e req r v n h)
      | inr (x, v, q) ↦ absurd (consume-answers e (e.hash req.code) s v x p q)
    ]
  ]

  checked-Errs :
      (e : Env) (req : ExchangeRequest) (s : Session) (u : World) (x : Error)
      → e.has_transactions ≡ true
      → find (λ t. has_code (e.hash req.code) t && is_open t) w.sessions ≡ some s
      → exchange_checked e req w ≡ err x u
      → Unmade w u
  unfolding exchange_checked
  checked-Errs e req s u x wired p h =
      let kept = check_code-Unmade e req s p in
      elim (>>=-eq-err (check_code e req) (issue_for_code e req) w u x h) [
        | inl q ↦ subst (λ r. Unmade w (final r)) q kept
        | inr (k, v, q, r) ↦
            issue_for_code-Errs e req k wired v u x (subst (λ r. Unmade w (final r)) q kept) r
      ]

  refused-Unmade :
      (e : Env) (id : String) (r : Run TokenResponse) (u : World) (x : Error)
      → ((y : Error) (v : World) → r ≡ err y v → Unmade w v)
      → refuse e id r ≡ err x u
      → Unmade w u
  unfolding refuse audited
  refused-Unmade e id (ok a v) u x k h = ground (arith, h)
  refused-Unmade e id (err y v) u x k h = ground (arith, h, k y v refl)

-- Where transactions are wired, an exchange of a code whose session is open, if it fails, at
-- whatever step, leaves no family and no refresh token behind, and takes none away.
pub exchange_code-atomic :
    (e : Env) (req : ExchangeRequest) (s : Session) (w u : World) (x : Error)
    → e.has_transactions ≡ true
    → find (λ t. has_code (e.hash req.code) t && is_open t) w.sessions ≡ some s
    → exchange_code e req w ≡ err x u
    → Unmade w u
unfolding exchange_code
exchange_code-atomic e req s w u x wired p h =
    refused-Unmade w e req.client_id (exchange_checked e req w) u x
      (λ y v q. checked-Errs w e req s v y wired p q) h
