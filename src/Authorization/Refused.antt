-- ===== src/Authorization/Refused.antt =====
-- A consent that fails changes nothing, and one that is denied stays denied.
use authserver.Common.{
  String, ◌+◌, true, false, List, [], ◌∷◌, Option, none, ◌≡◌, refl, ◌⊎◌, inl, inr, arith, subst,
  not, ◌==◌, Bool-cases, sym, keep, some, ◌≢◌, eq_iff,
}
use authserver.Domain.Errors.{Error, invalid_grant}
use authserver.Domain.Entities.{Session}
use authserver.Domain.Resources.{Resource}
use authserver.Scope.{to_string}
use authserver.Store.Table.{find}
use authserver.Store.Sessions
use authserver.Store.Monad.{
  World, Outside, M, ok, err, final, ◌>>=◌, ◌>>◌, Keeps, Run-cases, >>=-eq-err, delete_session,
  get_session, consent_granted, pure,
}
use authserver.Token.Env.{Env, audited}
use authserver.Token.Exchange.{in_transaction}
use authserver.Token.Atomic.{in_transaction-atomic}
use authserver.Token.Revoked.{succeeds}
use authserver.Authorization.Consent.{
  GrantConsentRequest, resolve_mint, check_consent, consent_guards, approved, is_stranger,
  grant_consent, grant_for, grant_to, grant_with, persist_and_code, deny_consent,
}
use authserver.Authorization.Start.{AuthorizeService, complete_authorization, complete_for}
use authserver.Authorization.Steps.{Keeps-same, check_consent-Keeps, resolve_mint-Keeps}

Keeps-err :
    {A : Type 0} (m : M A) (w u : World) (x : Error) → Keeps (λ v. v ≡ w) m → m w ≡ err x u → u ≡ w
Keeps-err m w u x k h = subst (λ r. final r ≡ w) h (k.apply w refl)

-- What a failed consent leaves alone.
abbrev Untouched : World → World → Type 0
Untouched w u = u ≡ record w { drawn = u.drawn }

module _ (e : Env) (req : GrantConsentRequest) (wired : e.has_transactions ≡ true) where
  grant_with-err :
      (s : Session) (target : Option Resource) (code : String) (w u : World) (x : Error)
      → grant_with e req s target code w ≡ err x u
      → Untouched w u
  unfolding audited
  grant_with-err s target code w u x h =
      elim (>>=-eq-err
        (in_transaction e (persist_and_code e req s target (to_string (approved e req)) code))
        (λ _.
          audited e (consent_granted req.user_id s.client_id)
          >> pure (record { redirect_uri = s.redirect_uri; code = code; state = s.state }))
        w u x h) [
          | inl p ↦ in_transaction-atomic e _ w u x wired p
          | inr (a, v, p, q) ↦ elim (Bool-cases e.has_audit) [
            | inl t ↦ ground (arith, t, q)
            | inr t ↦ ground (arith, t, q)
          ]
        ]

  grant_for-err :
      (s : Session) (w u : World) (x : Error) → grant_for e req s w ≡ err x u → Untouched w u
  grant_for-err s w u x h =
      elim (>>=-eq-err (resolve_mint e s.resource) (grant_to e req s) w u x h) [
        | inl p ↦
            subst (λ z. z ≡ record w { drawn = z.drawn })
              (sym
                (Keeps-err (resolve_mint e s.resource) w u x (resolve_mint-Keeps e s.resource) p))
              refl
        | inr (target, z, p, q) ↦
            let same =
              Keeps-same (resolve_mint e s.resource) w z target (resolve_mint-Keeps e s.resource)
                p in
            subst (λ y. Untouched y u) same
              (grant_with-err s target (e.random z.drawn) (record z { drawn = z.drawn + 1 }) u x q)
      ]

  -- A consent that fails, at whatever step, leaves the database as it was, so that no grant is kept
  -- without its code; only random texts stay drawn. Transactions are wired.
  pub grant_consent-atomic :
      (w u : World) (x : Error) → grant_consent e req w ≡ err x u → u ≡ record w { drawn = u.drawn }
  unfolding grant_consent
  grant_consent-atomic w u x h = elim (>>=-eq-err (check_consent e req) (grant_for e req) w u x h) [
    | inl p ↦
        subst (λ z. z ≡ record w { drawn = z.drawn })
          (sym (Keeps-err (check_consent e req) w u x (check_consent-Keeps e req) p)) refl
    | inr (s, z, p, q) ↦
        subst (λ y. Untouched y u)
          (Keeps-same (check_consent e req) w z s (check_consent-Keeps e req) p)
          (grant_for-err s z u x q)
  ]

find-keep-not :
    (id : String) (ss : List Session)
    → find (λ (s : Session). s.id == id) (keep (λ s. not (s.id == id)) ss) ≡ none
find-keep-not id [] = refl
find-keep-not id (s ∷ ss) = ground (arith, find-keep-not id ss)

missing-fails :
    (o : Outside) (id : String) (w : World)
    → find (λ (s : Session). s.id == id) w.sessions ≡ none
    → succeeds (Sessions.get_by_id o id w) ≡ false
unfolding Sessions.get_by_id
missing-fails o id w h = elim (Bool-cases (o.fails get_session)) [
  | inl p ↦ ground (arith, p)
  | inr p ↦ ground (arith, p, h)
]

bind-stops :
    {A B : Type 0} (m : M A) (f : A → M B) (w : World)
    → succeeds (m w) ≡ false
    → succeeds ((m >>= f) w) ≡ false
bind-stops m f w h = elim (Run-cases (m w)) [
  | inl (a, u, p) ↦ cc (rw p at h)
  | inr (x, u, p) ↦ rw (p, ◌>>=◌) refl
]

denied-gone :
    (e : Env) (id user : String) (w : World) (s : Session)
    → Sessions.get_by_id e.outside id w ≡ ok s w
    → is_stranger user s ≡ false
    → e.fails delete_session ≡ false
    → (final (deny_consent e id user w)).sessions ≡ keep (λ t. not (t.id == id)) w.sessions
unfolding deny_consent Sessions.delete audited
denied-gone e id user w s found own works = elim (Bool-cases e.has_audit) [
  | inl p ↦ ground (arith, found, own, works, p)
  | inr p ↦ ground (arith, found, own, works, p)
]

-- When the user who may act on a pending session denies it, and the store deletes it, no consent and
-- no end of the authorization gives a code for that session afterwards.
pub deny_consent-final :
    (a : AuthorizeService) (id user : String) (w : World) (s : Session) (req : GrantConsentRequest)
    → Sessions.get_by_id a.env.outside id w ≡ ok s w
    → is_stranger user s ≡ false
    → a.env.fails delete_session ≡ false
    → req.session_id ≡ id
    → (succeeds (grant_consent a.env req (final (deny_consent a.env id user w))) ≡ false)
      × (succeeds (complete_authorization a id (final (deny_consent a.env id user w))) ≡ false)
unfolding grant_consent complete_authorization check_consent
deny_consent-final a id user w s req found own works same =
    let gone = denied-gone a.env id user w s found own works in
    let after = final (deny_consent a.env id user w) in
    let left : find (λ (t : Session). t.id == id) after.sessions ≡ none =
      rw gone (find-keep-not id w.sessions) in
    let stops = missing-fails a.env.outside id after left in
    (
      bind-stops (check_consent a.env req) (grant_for a.env req) after (
          bind-stops (Sessions.get_by_id a.env.outside req.session_id) (consent_guards a.env req)
            after (rw same stops)),
      bind-stops (Sessions.get_by_id a.env.outside id) (complete_for a id) after stops,
    )

-- A caller without a name, or with another name than the user of a session that has one.
abbrev pub Outsider : String → Session → Type 0
Outsider user s = (user ≡ "") ⊎ ((s.user_id ≢ "") × (s.user_id ≢ user))

Outsider-is : (user : String) (s : Session) → Outsider user s → is_stranger user s ≡ true
Outsider-is user s h = ground (arith, h, eq_iff user "", eq_iff s.user_id "", eq_iff s.user_id user)

stored-reads :
    (o : Outside) (id : String) (w : World) (s : Session)
    → find (λ (t : Session). t.id == id) w.sessions ≡ some s
    → o.fails get_session ≡ false
    → Sessions.get_by_id o id w ≡ ok s w
unfolding Sessions.get_by_id
stored-reads o id w s h works = ground (arith, h, works)

alien-refused :
    (e : Env) (id user : String) (w : World) (s : Session) (req : GrantConsentRequest)
    → Sessions.get_by_id e.outside id w ≡ ok s w
    → is_stranger user s ≡ true
    → req.session_id ≡ id
    → req.user_id ≡ user
    → (deny_consent e id user w ≡ err invalid_grant w)
      × (succeeds (grant_consent e req w) ≡ false)
      × (final (grant_consent e req w) ≡ w)
unfolding deny_consent grant_consent check_consent
alien-refused e id user w s req found alien same who = ground (arith, found, alien, same, who)

-- On a session that is stored, and where the store answers the read of it, a caller without a name,
-- or with another name than the session's user, can neither approve nor deny: both are refused, and
-- the database stays as it was.
pub stranger-refused :
    (e : Env) (id user : String) (w : World) (s : Session) (req : GrantConsentRequest)
    → find (λ (t : Session). t.id == id) w.sessions ≡ some s
    → e.fails get_session ≡ false
    → Outsider user s
    → req.session_id ≡ id
    → req.user_id ≡ user
    → (deny_consent e id user w ≡ err invalid_grant w)
      × (succeeds (grant_consent e req w) ≡ false)
      × (final (grant_consent e req w) ≡ w)
stranger-refused e id user w s req stored works alien same who =
    alien-refused e id user w s req (stored-reads e.outside id w s stored works)
      (Outsider-is user s alien) same who
