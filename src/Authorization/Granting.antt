-- ===== src/Authorization/Granting.antt =====
-- What a consent needs and does, and what it leaves alone when it fails.
use authserver.Common.{
  String, ◌+◌, true, false, Option, none, some, ◌≡◌, refl, inl, inr, arith, subst, ◌==◌, Bool-cases,
  Option-cases, is_empty, sym, In, eq_iff,
}
use authserver.Domain.Entities.{Session}
use authserver.Domain.Resources.{Resource}
use authserver.Domain.Consents.{ConsentGrant}
use authserver.Scope.{is_subset, to_string, fields}
use authserver.Scope
use authserver.Scope.Algebra.{is_subset_iff}
use authserver.Store.Table.{find, find-test, find-In, update-In}
use authserver.Store.Sessions
use authserver.Store.Sessions.{updatable}
use authserver.Store.Consents
use authserver.Store.Consents.{is_for}
use authserver.Store.Monad.{
  World, Outside, ok, ◌>>◌, >>=-eq-ok, consent_granted, pure, update_code, upsert_consent,
}
use authserver.Token.Env.{Env, audited}
use authserver.Token.Exchange.{in_transaction}
use authserver.Token.Granted.{in_transaction-ok}
use authserver.Authorization.Consent.{
  GrantConsentRequest, GrantConsentResult, resolve_mint, check_consent, consent_guards, approved,
  is_stranger, grant_consent, grant_for, grant_to, grant_with, keep_grant, new_grant,
  persist_and_code,
}
use authserver.Authorization.Steps.{
  Keeps-same, check_consent-Keeps, resolve_mint-Keeps, get_session-ok,
}

-- The session that a consent was checked against.
pub record Consented (e : Env) (req : GrantConsentRequest) (w : World) (s : Session) : Type 0 where
  pub pending : find (λ (t : Session). t.id == req.session_id) w.sessions ≡ some s
  pub owned : is_stranger req.user_id s ≡ false
  pub chosen : is_empty (approved e req) ≡ false
  pub within : (x : String) → In x (approved e req) → In x (Scope.parse s.scope)

guards-ok :
    (e : Env) (req : GrantConsentRequest) (s t : Session) (w u : World)
    → consent_guards e req s w ≡ ok t u
    → (s ≡ t)
      × (is_stranger req.user_id s ≡ false)
      × (is_empty (approved e req) ≡ false)
      × (is_subset (approved e req) (Scope.parse s.scope) ≡ true)
guards-ok e req s t w u h = ground (arith, h)

check_consent-Consented :
    (e : Env) (req : GrantConsentRequest) (w u : World) (s : Session)
    → check_consent e req w ≡ ok s u
    → Consented e req w s
unfolding check_consent
check_consent-Consented e req w u s h =
    let (t, v, p, q) =
      >>=-eq-ok (Sessions.get_by_id e.outside req.session_id) (consent_guards e req) w u s h in
    let (same, own, some_left, sub) = guards-ok e req t s v u q in
    subst (Consented e req w) same (record {
      pending = get_session-ok e.outside req.session_id w v t p;
      owned = own;
      chosen = some_left;
      within = (is_subset_iff (approved e req) (Scope.parse t.scope)).0 sub;
    })

-- The writes of a consent: the session has the code and the approved scope, and a grant of the user
-- to the client for the resource, if there is one, has the same scope.
pub record Granted (e : Env) (req : GrantConsentRequest) (s : Session) (target : Option Resource)
    (code : String) (v : World) : Type 0 where
  pub session : Session
  pub is_there : In session v.sessions
  pub is_same : session.id ≡ req.session_id
  pub coded : session.code_hash ≡ some (e.hash code)
  pub scoped : session.scope ≡ to_string (approved e req)
  pub agreed :
      (r : Resource)
      → target ≡ some r
      → (g : ConsentGrant) × In g v.consents
        × (is_for req.user_id s.client_id r.id g ≡ true)
        × (g.scopes ≡ fields (to_string (approved e req)))
        × (g.revoked_at ≡ none)

update-written :
    (o : Outside) (id h scope : String) (w u : World)
    → Sessions.update_code_hash_and_scope o id h scope w ≡ ok tt u
    → ((t : Session) × In t u.sessions × (t.id ≡ id) × (t.code_hash ≡ some h) × (t.scope ≡ scope))
      × (u.consents ≡ w.consents)
unfolding Sessions.update_code_hash_and_scope
update-written o id h scope w u q = elim (Bool-cases (o.fails update_code)) [
  | inl p ↦ ground (arith, p, q)
  | inr p ↦ elim (Option-cases (find (updatable o.now id) w.sessions)) [
    | inl f ↦ ground (arith, p, f, q)
    | inr (s, f) ↦
        let hit = find-test (updatable o.now id) s w.sessions f in
        let m =
          update-In (updatable o.now id) (λ t. record t { code_hash = some h; scope = scope }) s
            w.sessions (find-In (updatable o.now id) s w.sessions f) in
        (
          (
            record s { code_hash = some h; scope = scope },
            ground (arith, p, f, q, hit, m),
            ground (arith, hit, eq_iff s.id id),
            refl,
            refl,
          ),
          ground (arith, p, f, q),
        )
  ]
]

module _ (e : Env) (req : GrantConsentRequest) (s : Session) where
  upsert-agreed :
      (r : Resource) (g : ConsentGrant) (w u : World)
      → is_for g.user_id g.client_id g.resource_id g ≡ true
      → g.revoked_at ≡ none
      → Consents.upsert e.outside g w ≡ ok tt u
      → (h : ConsentGrant) × In h u.consents
        × (is_for g.user_id g.client_id g.resource_id h ≡ true)
        × (h.scopes ≡ g.scopes)
        × (h.revoked_at ≡ none)
  unfolding Consents.upsert
  upsert-agreed r g w u self live q = elim (Bool-cases (e.outside.fails upsert_consent)) [
    | inl p ↦ ground (arith, p, q)
    | inr p ↦ elim (Option-cases (find (is_for g.user_id g.client_id g.resource_id) w.consents)) [
      | inl f ↦ (g, ground (arith, p, f, q), self, refl, live)
      | inr (old, f) ↦
          let hit = find-test (is_for g.user_id g.client_id g.resource_id) old w.consents f in
          let m =
            update-In (is_for g.user_id g.client_id g.resource_id)
              (λ x. record x { scopes = g.scopes; updated_at = g.updated_at; revoked_at = none })
              old w.consents
              (find-In (is_for g.user_id g.client_id g.resource_id) old w.consents f) in
          (
            record old { scopes = g.scopes; updated_at = g.updated_at; revoked_at = none },
            ground (arith, p, f, q, hit, m),
            hit,
            refl,
            refl,
          )
    ]
  ]

  persist-Granted :
      (target : Option Resource) (code : String) (w u : World)
      → persist_and_code e req s target (to_string (approved e req)) code w ≡ ok tt u
      → Granted e req s target code u
  persist-Granted target code w u h =
      let (x, v, p, q) =
        >>=-eq-ok (keep_grant e req.user_id s target (fields (to_string (approved e req))))
          (λ _.
            Sessions.update_code_hash_and_scope e.outside req.session_id (e.hash code)
              (to_string (approved e req)))
          w u tt h in
      let ((t, m, i, c, k), same) =
        update-written e.outside req.session_id (e.hash code) (to_string (approved e req)) v u q in
      record {
        session = t;
        is_there = m;
        is_same = i;
        coded = c;
        scoped = k;
        agreed = λ r at. rw same (kept target w v x r at p);
      }
    where
      kept :
          (o : Option Resource) (w v : World) (x : Unit {0}) (r : Resource)
          → o ≡ some r
          → keep_grant e req.user_id s o (fields (to_string (approved e req))) w ≡ ok x v
          → (g : ConsentGrant) × In g v.consents
            × (is_for req.user_id s.client_id r.id g ≡ true)
            × (g.scopes ≡ fields (to_string (approved e req)))
            × (g.revoked_at ≡ none)
      kept none w v x r at p = cc at
      kept (some k) w v x r at p =
          let same : k ≡ r = ground (arith, at) in
          let id = e.random w.drawn in
          let g : ConsentGrant =
            new_grant e req.user_id s k (fields (to_string (approved e req))) id in
          subst
            (λ z.
              (g : ConsentGrant) × In g v.consents
              × (is_for req.user_id s.client_id z.id g ≡ true)
              × (g.scopes ≡ fields (to_string (approved e req)))
              × (g.revoked_at ≡ none))
            same
            (upsert-agreed k g (record w { drawn = w.drawn + 1 }) v
              (ground (
                arith,
                eq_iff req.user_id req.user_id,
                eq_iff s.client_id s.client_id,
                eq_iff k.id k.id,
              ))
              refl p)

  grant_with-ok :
      (target : Option Resource) (code : String) (w u : World) (res : GrantConsentResult)
      → grant_with e req s target code w ≡ ok res u
      → Granted e req s target code u × (res.code ≡ code)
  unfolding audited
  grant_with-ok target code w u res h =
      let (x, v, p, q) =
        >>=-eq-ok
          (in_transaction e (persist_and_code e req s target (to_string (approved e req)) code))
          (λ _.
            audited e (consent_granted req.user_id s.client_id)
            >> pure (record { redirect_uri = s.redirect_uri; code = code; state = s.state }))
          w u res h in
      let g = persist-Granted target code w v (in_transaction-ok e _ w v x p) in
      let (rest, same) = event v u q in
      (
        record {
          session = g.session;
          is_there = rw rest.0 g.is_there;
          is_same = g.is_same;
          coded = g.coded;
          scoped = g.scoped;
          agreed = λ r at. rw rest.1 (g.agreed r at);
        },
        same,
      )
    where
      event :
          (v u : World)
          → (audited e (consent_granted req.user_id s.client_id)
                >> pure (record { redirect_uri = s.redirect_uri; code = code; state = s.state }))
              v
            ≡ ok res u
          → ((u.sessions ≡ v.sessions) × (u.consents ≡ v.consents)) × (res.code ≡ code)
      event v u q = elim (Bool-cases e.has_audit) [
        | inl p ↦ ground (arith, p, q)
        | inr p ↦ ground (arith, p, q)
      ]

-- A consent that succeeds is by a user who may act on the pending session, for at least one scope
-- and none beyond those requested. The session then has the hash of the returned code, narrowed to
-- the approved scopes; and where it is for a resource, the user's grant to the client for that
-- resource has these scopes and is not revoked.
pub grant_consent-Granted :
    (e : Env) (req : GrantConsentRequest) (w u : World) (res : GrantConsentResult)
    → grant_consent e req w ≡ ok res u
    → (s : Session) × (target : Option Resource) × Consented e req w s
      × (resolve_mint e s.resource w ≡ ok target w)
      × Granted e req s target res.code u
unfolding grant_consent
grant_consent-Granted e req w u res h =
    let (s, v, p, q) = >>=-eq-ok (check_consent e req) (grant_for e req) w u res h in
    let (target, z, i, j) = >>=-eq-ok (resolve_mint e s.resource) (grant_to e req s) v u res q in
    let here = Keeps-same (check_consent e req) w v s (check_consent-Keeps e req) p in
    let there =
      Keeps-same (resolve_mint e s.resource) v z target (resolve_mint-Keeps e s.resource) i in
    let (g, same) =
      grant_with-ok e req s target (e.random z.drawn) (record z { drawn = z.drawn + 1 }) u res j in
    (
      s,
      target,
      check_consent-Consented e req w v s p,
      subst (λ y. resolve_mint e s.resource y ≡ ok target y) here
          (subst (λ y. resolve_mint e s.resource v ≡ ok target y) there i),
      subst (λ c. Granted e req s target c u) (sym same) g,
    )
