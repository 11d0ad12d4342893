-- ===== src/Authorization/Steps.antt =====
-- The steps of an authorization and of a consent that only read the database.
use authserver.Common.{
  String, Bool, true, false, List, [], ◌∷◌, none, some, ◌≡◌, refl, inl, inr, arith, subst, not,
  ◌==◌, Bool-cases, Option-cases, is_empty,
}
use authserver.Domain.Errors.{
  Error, consent_resource_not_mint, session_expired, invalid_grant, invalid_scope,
}
use authserver.Domain.Entities.{Session, session_is_expired}
use authserver.Domain.Resources.{Resource, is_mint}
use authserver.Scope.{is_subset}
use authserver.Scope
use authserver.Store.Table.{find}
use authserver.Store.Resources
use authserver.Store.Sessions
use authserver.Store.Monad.{
  World, Outside, M, ok, final, ◌>>◌, Keeps, >>=-Keeps, >>-Keeps, pure-Keeps, raise-Keeps,
  require-Keeps, reach-Keeps, require, get_session, resolve_resource,
}
use authserver.Token.Env.{Env}
use authserver.Authorization.Registry
use authserver.Authorization.Consent.{
  GrantConsentRequest, resolve_mint, mint_target, check_consent, approved, is_stranger,
}

-- The parts of a guarded step that succeeds.
pub require-ok :
    {A : Type 0} (b : Bool) (e : Error) (k : M A) (w u : World) (a : A)
    → (require b e >> k) w ≡ ok a u
    → (b ≡ true) × (k w ≡ ok a u)
require-ok true e k w u a h = (refl, h)
require-ok false e k w u a h = cc h

-- A step that keeps every property of a database leaves it alone.
pub Keeps-same :
    {A : Type 0} (m : M A) (w u : World) (a : A) → Keeps (λ v. v ≡ w) m → m w ≡ ok a u → u ≡ w
Keeps-same m w u a k h = subst (λ r. final r ≡ w) h (k.apply w refl)

module _ {P : World → Type 0} where
  only_one-Keeps : (rs : List Resource) → Keeps P (Registry.only_one rs)
  only_one-Keeps [] = raise-Keeps _
  only_one-Keeps (r ∷ []) = pure-Keeps r
  only_one-Keeps (r ∷ x ∷ rs) = raise-Keeps _

  rows_for-Keeps : (b : Bool) (o : Outside) (s : String) → Keeps P (Resources.rows_for b o s)
  rows_for-Keeps true o s = pure-Keeps []
  rows_for-Keeps false o s = >>-Keeps (reach-Keeps o resolve_resource) (record { apply = λ v t. t })

  pub resolve-Keeps : (o : Outside) (s : String) → Keeps P (Registry.resolve o s)
  unfolding Registry.resolve Resources.resolve
  resolve-Keeps o s = >>=-Keeps (rows_for-Keeps (s == "") o s) only_one-Keeps

  mint_target-Keeps : (b : Bool) (e : Env) (s : String) → Keeps P (mint_target e b s)
  mint_target-Keeps true e s = pure-Keeps none
  mint_target-Keeps false e s =
      >>=-Keeps (resolve-Keeps e.outside s)
        (λ r. >>-Keeps (require-Keeps (is_mint r) consent_resource_not_mint) (pure-Keeps (some r)))

  pub resolve_mint-Keeps : (e : Env) (s : String) → Keeps P (resolve_mint e s)
  resolve_mint-Keeps e s = mint_target-Keeps (s == "") e s

  pub get_session-Keeps : (o : Outside) (id : String) → Keeps P (Sessions.get_by_id o id)
  unfolding Sessions.get_by_id
  get_session-Keeps o id = >>-Keeps (reach-Keeps o get_session) (record {
    apply = λ w h. elim (Option-cases (find (λ s. s.id == id) w.sessions)) [
      | inl p ↦ rw p h
      | inr (s, p) ↦ rw p h
    ];
  })

  pub check_consent-Keeps : (e : Env) (req : GrantConsentRequest) → Keeps P (check_consent e req)
  unfolding check_consent
  check_consent-Keeps e req = >>=-Keeps (get_session-Keeps e.outside req.session_id) (λ s.
      >>-Keeps (require-Keeps (not (session_is_expired e.now s)) session_expired) (
        >>-Keeps (require-Keeps (not (is_stranger req.user_id s)) invalid_grant) (
          >>-Keeps (require-Keeps (not (is_empty (approved e req))) invalid_scope) (
            >>-Keeps
              (require-Keeps (is_subset (approved e req) (Scope.parse s.scope)) invalid_scope)
              (pure-Keeps s)))))

pub get_session-ok :
    (o : Outside) (id : String) (w u : World) (s : Session)
    → Sessions.get_by_id o id w ≡ ok s u
    → find (λ (t : Session). t.id == id) w.sessions ≡ some s
unfolding Sessions.get_by_id
get_session-ok o id w u s h = elim (Bool-cases (o.fails get_session)) [
  | inl p ↦ ground (arith, p, h)
  | inr p ↦ elim (Option-cases (find (λ (t : Session). t.id == id) w.sessions)) [
    | inl q ↦ ground (arith, p, q, h)
    | inr (t, q) ↦ ground (arith, p, q, h)
  ]
]
