-- ===== src/Authorization/Started.antt =====
-- What a started authorization has been held against.
use authserver.Common.{
  String, ◌+◌, Bool, true, false, List, ◌∷◌, Option, none, some, ◌≡◌, ◌≢◌, refl, inl, inr, arith,
  subst, not, ◌==◌, ◌&&◌, Bool-cases, Option-cases, ap, In, eq_iff, is_empty, all, contains,
  contains_iff, all-In, sym,
}
use authserver.Domain.Errors.{consent_resource_not_mint}
use authserver.Domain.Clients.{Client, is_active}
use authserver.Domain.Entities.{Session}
use authserver.Domain.Redirects.{has_redirect_uri}
use authserver.Domain.Resources.{Resource, is_mint}
use authserver.Domain.Consents.{ConsentGrant, covers_scopes, grant_is_revoked}
use authserver.Pkce.{is_valid_challenge_method}
use authserver.Scope
use authserver.Scope.{Set, is_subset, fields}
use authserver.Scope.Algebra.{is_subset_iff}
use authserver.Store.Table.{find, find-In, find-test}
use authserver.Store.Sorting.{order_by}
use authserver.Store.Resources
use authserver.Store.Resources.{slug_le}
use authserver.Store.Consents
use authserver.Store.Consents.{is_for}
use authserver.Store.Sessions
use authserver.Store.Monad.{
  World, M, ok, Keeps, >>=-Keeps, >>-Keeps, pure-Keeps, require-Keeps, ◌>>=◌, ◌>>◌, >>=-eq-ok,
  list_resources, get_consent, create_session, pure,
}
use authserver.Authorization.Registry
use authserver.Authorization.Registry.{ResourceInfo, infos}
use authserver.Authorization.Start.{
  AuthorizeService, AuthorizeRequest, AuthorizeResult, Admitted, outside, nonempty, allowed_scopes,
  lookup_client, resolve_target, target_of, proposed_scope, check_ceiling, should_log_no_ceiling,
  check_catalog, validate_scopes, has_consent, consent_of, uri_of, settle, propose, aim,
  check_request, open_session, start_authorization, new_session,
}
use authserver.Authorization.Steps.{require-ok, Keeps-same, resolve-Keeps}

-- The names that the catalog of a resource has, in the database.
abbrev pub catalog : String → World → List String
catalog uri w = allowed_scopes uri (infos (order_by slug_le w.resources))

-- A grant of the user to the client that covers the scope.
abbrev pub Covered : String → String → String → Option Resource → World → Type 0
Covered user client scope target w =
    (r : Resource) × (g : ConsentGrant) × (target ≡ some r)
    × (user ≢ "")
    × In g w.consents
    × (is_for user client r.id g ≡ true)
    × (grant_is_revoked g ≡ false)
    × (covers_scopes g (fields scope) ≡ true)

module _ (a : AuthorizeService) where
  ceiling-ok :
      (id : String) (ceiling : Set) (scope : String) (w u : World)
      → check_ceiling a id ceiling scope w ≡ ok tt u
      → (is_empty ceiling ≡ false → is_subset (Scope.parse scope) ceiling ≡ true)
        × (u.resources ≡ w.resources)
        × (u.consents ≡ w.consents)
  unfolding check_ceiling should_log_no_ceiling
  ceiling-ok id ceiling scope w u h = elim (Bool-cases (is_empty ceiling)) [
    | inl p ↦ elim (Bool-cases (scope == "")) [
      | inl q ↦ ground (arith, p, q, h)
      | inr q ↦ ground (arith, p, q, h)
    ]
    | inr p ↦ ground (arith, p, h)
  ]

  catalog-ok :
      (scope uri : String) (w u : World)
      → check_catalog a scope uri w ≡ ok tt u
      → ((nonempty scope && nonempty uri) ≡ true
          → all (contains (catalog uri w)) (fields scope) ≡ true)
        × (u ≡ w)
  unfolding check_catalog validate_scopes Registry.list Resources.list
  catalog-ok scope uri w u h = elim (Bool-cases (nonempty scope && nonempty uri)) [
    | inl p ↦ elim (Bool-cases ((outside a).fails list_resources)) [
      | inl q ↦ ground (arith, p, q, h)
      | inr q ↦ ground (arith, p, q, h)
    ]
    | inr p ↦ ground (arith, p, h)
  ]

  consent_of-ok :
      (b : Bool) (user client scope : String) (r : Resource) (w u : World) (c : Bool)
      → (user == "") ≡ b
      → consent_of a b user client scope r w ≡ ok c u
      → (c ≡ true → Covered user client scope (some r) w) × (u ≡ w)
  unfolding Consents.get
  consent_of-ok true user client scope r w u c e h = ground (arith, h)
  consent_of-ok false user client scope r w u c e h =
      elim (Bool-cases ((outside a).fails get_consent)) [
        | inl p ↦ ground (arith, p, h)
        | inr p ↦
            elim (Option-cases
              (find (λ g. is_for user client r.id g && not (grant_is_revoked g)) w.consents)) [
                | inl q ↦ ground (arith, p, q, h)
                | inr (g, q) ↦
                    let t =
                      find-test (λ g. is_for user client r.id g && not (grant_is_revoked g)) g
                        w.consents q in
                    let m =
                      find-In (λ g. is_for user client r.id g && not (grant_is_revoked g)) g
                        w.consents q in
                    (
                      λ yes. (
                        r,
                        g,
                        refl,
                        ground (arith, e, eq_iff user ""),
                        m,
                        ground (arith, t),
                        ground (arith, t),
                        ground (arith, p, q, h, yes),
                      ),
                      ground (arith, p, q, h),
                    )
              ]
      ]

  consent-ok :
      (user client scope : String) (target : Option Resource) (w u : World) (c : Bool)
      → has_consent a user client scope target w ≡ ok c u
      → (c ≡ true → Covered user client scope target w) × (u ≡ w)
  unfolding has_consent
  consent-ok user client scope none w u c h = ground (arith, h)
  consent-ok user client scope (some r) w u c h =
      consent_of-ok (user == "") user client scope r w u c refl h

  -- What the checks of a request establish, in the database that they leave.
  record Settled (req : AuthorizeRequest) (c : Client) (t : Option Resource) (k : Admitted)
      (v : World) : Type 0 where
    is_client : k.client ≡ c
    is_target : k.target ≡ t
    bounded :
        is_empty (Scope.parse c.scope) ≡ false
        → is_subset (Scope.parse k.scope) (Scope.parse c.scope) ≡ true
    listed :
        (nonempty k.scope && nonempty (uri_of a k.target)) ≡ true
        → all (contains (catalog (uri_of a k.target) v)) (fields k.scope) ≡ true
    agreed : k.consented ≡ true → Covered req.user_id c.id k.scope k.target v

  settle-ok :
      (req : AuthorizeRequest) (c : Client) (target : Option Resource) (scope : String)
      (w u : World) (k : Admitted)
      → settle a req c target scope w ≡ ok k u
      → Settled req c target k u
  settle-ok req c target scope w u k h =
      let (t, v, p, h1) =
        >>=-eq-ok (check_ceiling a req.client_id (Scope.parse c.scope) scope)
          (λ _.
            check_catalog a scope (uri_of a target)
            >> (has_consent a req.user_id c.id scope target >>= made))
          w u k h in
      let (t2, z, q, h2) =
        >>=-eq-ok (check_catalog a scope (uri_of a target))
          (λ _. has_consent a req.user_id c.id scope target >>= made) v u k h1 in
      let (b, y, r, h3) = >>=-eq-ok (has_consent a req.user_id c.id scope target) made z u k h2 in
      let (bound, _, _) = ceiling-ok req.client_id (Scope.parse c.scope) scope w v p in
      let (inside, zv) = catalog-ok scope (uri_of a target) v z q in
      let (agrees, yz) = consent-ok req.user_id c.id scope target z y b r in
      let uy : u ≡ y = ground (arith, h3) in
      let k_is : made_of b ≡ k = ground (arith, h3) in
      subst (λ x. Settled req c target x u) k_is
        (record {
          is_client = refl;
          is_target = refl;
          bounded = bound;
          listed = rw (uy, yz, zv) inside;
          agreed = rw (uy, yz) agrees;
        })
    where
      made_of : Bool → Admitted
      made_of b = record { client = c; target = target; scope = scope; consented = b }

      made : Bool → M Admitted
      made b = pure (made_of b)

  target_of-Keeps : {P : World → Type 0} (b : Bool) (s : String) → Keeps P (target_of a b s)
  target_of-Keeps true s = pure-Keeps none
  target_of-Keeps false s =
      >>=-Keeps (resolve-Keeps (outside a) s)
        (λ r. >>-Keeps (require-Keeps (is_mint r) consent_resource_not_mint) (pure-Keeps (some r)))

  target-Keeps : {P : World → Type 0} (s : String) → Keeps P (resolve_target a s)
  target-Keeps s = target_of-Keeps (s == "") s

  lookup-ok : (id : String) (w u : World) (c : Client) → lookup_client a id w ≡ ok c u → u ≡ w
  unfolding lookup_client
  lookup-ok id w u c h = ground arith

  aim-ok :
      (req : AuthorizeRequest) (c : Client) (w u : World) (k : Admitted)
      → aim a req c w ≡ ok k u
      → (is_active c ≡ true)
        × (has_redirect_uri a.parse_redirect c.redirect_uris req.redirect_uri ≡ true)
        × (is_valid_challenge_method req.code_challenge_method ≡ true)
        × (nonempty req.code_challenge ≡ true)
        × (t : Option Resource) × (resolve_target a req.resource w ≡ ok t w)
        × Settled req c t k u
  aim-ok req c w u k h =
      let (active, h1) = require-ok (is_active c) _ _ w u k h in
      let (redirect, h2) =
        require-ok (has_redirect_uri a.parse_redirect c.redirect_uris req.redirect_uri) _ _ w u k
          h1 in
      let (given, h3) = require-ok (nonempty req.code_challenge) _ _ w u k h2 in
      let (method, h4) =
        require-ok (is_valid_challenge_method req.code_challenge_method) _ _ w u k h3 in
      let (target, v, p, h5) =
        >>=-eq-ok (resolve_target a req.resource) (propose a req c) w u k h4 in
      let (scope, z, q, h6) =
        >>=-eq-ok (proposed_scope a (Scope.parse c.scope) (uri_of a target) req.scope)
          (settle a req c target) v u k h5 in
      let same =
        Keeps-same (resolve_target a req.resource) w v target (target-Keeps req.resource) p in
      (
        active,
        redirect,
        method,
        given,
        target,
        subst (λ x. resolve_target a req.resource w ≡ ok target x) same p,
        settle-ok req c target scope z u k h6,
      )

  -- An authorization that has started in one database, and the database that it leaves.
  pub record Started (req : AuthorizeRequest) (res : AuthorizeResult) (w v : World) : Type 0 where
    pub client : Client
    pub looked_up : lookup_client a req.client_id w ≡ ok client w
    pub target : Option Resource
    pub resolved : resolve_target a req.resource w ≡ ok target w
    pub active : is_active client ≡ true
    pub redirects : has_redirect_uri a.parse_redirect client.redirect_uris req.redirect_uri ≡ true
    pub is_challenged : (req.code_challenge ≢ "") × (req.code_challenge_method ≡ "S256")
    pub is_there : In res.session v.sessions
    pub is_of :
        (res.session.client_id ≡ client.id)
        × (res.session.redirect_uri ≡ req.redirect_uri)
        × (res.session.user_id ≡ req.user_id)
        × (res.session.code_challenge ≡ req.code_challenge)
        × (res.session.code_hash ≡ none)
    pub is_for_target : res.session.resource ≡ uri_of a target
    pub within_ceiling :
        is_empty (Scope.parse client.scope) ≡ false
        → (x : String) → In x (Scope.parse res.session.scope)
        → In x (Scope.parse client.scope)
    pub within_catalog :
        res.session.scope ≢ ""
        → res.session.resource ≢ ""
        → (x : String) → In x (fields res.session.scope)
        → In x (catalog res.session.resource v)
    pub skipped :
        res.consent_required ≡ false → Covered req.user_id client.id res.session.scope target v

  nonempty_iff : (s : String) → s ≢ "" → nonempty s ≡ true
  nonempty_iff s h = ground (arith, h, eq_iff s "")

  open-Started :
      (req : AuthorizeRequest) (c : Client) (t : Option Resource) (k : Admitted) (o w u : World)
      (res : AuthorizeResult)
      → lookup_client a req.client_id o ≡ ok c o
      → resolve_target a req.resource o ≡ ok t o
      → is_active c ≡ true
      → has_redirect_uri a.parse_redirect c.redirect_uris req.redirect_uri ≡ true
      → is_valid_challenge_method req.code_challenge_method ≡ true
      → nonempty req.code_challenge ≡ true
      → Settled req c t k w
      → open_session a req k w ≡ ok res u
      → Started req res o u
  unfolding open_session Sessions.create is_valid_challenge_method
  open-Started req c t k o w u res found aimed active redirect method given s h =
      elim (Bool-cases ((outside a).fails create_session)) [
        | inl p ↦ ground (arith, p, h)
        | inr p ↦
            let id = (outside a).random w.drawn in
            let made = new_session a req k.client (uri_of a k.target) k.scope id in
            let res_is : opened made ≡ res = ground (arith, p, h) in
            let u_is : after made ≡ u = ground (arith, p, h) in
            subst (λ v. Started req res o v) u_is
              (subst (λ r. Started req r o (after made)) res_is
                (record {
                  client = c;
                  looked_up = found;
                  target = k.target;
                  resolved =
                      subst (λ x. resolve_target a req.resource o ≡ ok x o) (sym s.is_target) aimed;
                  active = active;
                  redirects = redirect;
                  is_challenged = (
                    ground (arith, given, eq_iff req.code_challenge ""),
                    (eq_iff req.code_challenge_method "S256").0 method,
                  );
                  is_there = inl refl;
                  is_of = (ap (λ (c : Client). c.id) s.is_client, refl, refl, refl, refl);
                  is_for_target = refl;
                  within_ceiling = λ set.
                      (is_subset_iff (Scope.parse k.scope) (Scope.parse c.scope)).0 (s.bounded set);
                  within_catalog = λ scoped named x m.
                      (contains_iff (catalog (uri_of a k.target) w) x).0 (
                        all-In (contains (catalog (uri_of a k.target) w)) x (fields k.scope)
                          (s.listed (
                            ground (
                              arith,
                              nonempty_iff k.scope scoped,
                              nonempty_iff (uri_of a k.target) named,
                            )))
                          m);
                  skipped = λ no. s.agreed (ground (arith, no));
                }))
      ]
    where
      opened : Session → AuthorizeResult
      opened x = record {
        session = x;
        login_required = req.user_id == "";
        consent_required = not k.consented;
      }

      after : Session → World
      after x = record w { drawn = w.drawn + 1; sessions = x ∷ w.sessions }

  -- An authorization that starts is for the client that the request names, which is active, one of
  -- its redirect URIs, and the resource that the request names, if it names one, with a PKCE
  -- challenge. Its session is stored without a code; the scope is within the client's registered
  -- scopes, if it has any, and within the catalog that the registry gives for the session's
  -- resource, if it has one; and consent is skipped only where a grant of this user to this client
  -- for the resource covers the scope and is not revoked.
  pub start_authorization-Started :
      (req : AuthorizeRequest) (w u : World) (res : AuthorizeResult)
      → start_authorization a req w ≡ ok res u
      → Started req res w u
  unfolding start_authorization check_request
  start_authorization-Started req w u res h =
      let (k, v, p, q) = >>=-eq-ok (check_request a req) (open_session a req) w u res h in
      let (_, p1) = require-ok (req.response_type == "code") _ _ w v k p in
      let (c, z, i, j) = >>=-eq-ok (lookup_client a req.client_id) (aim a req) w v k p1 in
      let same = lookup-ok req.client_id w z c i in
      let (active, redirect, method, given, t, aimed, s) =
        aim-ok req c w v k (subst (λ x. aim a req c x ≡ ok k v) same j) in
      open-Started req c t k w v u res
        (subst (λ x. lookup_client a req.client_id w ≡ ok c x) same i) aimed active redirect method
        given s q
