-- ===== src/ResourceAdmin/Peeks.antt =====
-- The parts of the resource administration that write no resource and no link.
use authserver.Common.{
  String, Bool, true, false, List, [], ◌∷◌, Option, none, some, inl, inr, arith, not, ◌==◌,
  Bool-cases, contains,
}
use authserver.Domain.Errors.{Error, invalid_request}
use authserver.Domain.Clients.{Client}
use authserver.Domain.Resources.{Resource, Policy, BackendKind, kind_is_broker}
use authserver.Store.Links
use authserver.Store.Resources
use authserver.Store.Monad.{
  World, M, Run, ok, err, final, ◌>>=◌, Keeps, >>=-Keeps, >>-Keeps, pure-Keeps, raise-Keeps,
  require-Keeps, reach-Keeps, AuditEvent, refuse_if, begin_tx, commit_tx,
}
use authserver.Token.Env.{Env, audited}
use authserver.Token.Exchange.{in_transaction, body, rolled_back, committed}
use authserver.Fronting.Sound.{InOrder}
use authserver.ResourceAdmin.Service.{
  ResourceAdminService, outside, found_client, known_client, validate_client_id_list,
  validate_policy_clients, known_provider, validate_broker_provider_ref, available,
  assert_slug_available, when, canonical, patched_slug, dependents_of,
}
use authserver.ResourceAdmin.Stored.{get_by_slug-cases}

pub refuse_if-Keeps : (e : Option Error) → Keeps InOrder (refuse_if e)
refuse_if-Keeps none = pure-Keeps tt
refuse_if-Keeps (some e) = raise-Keeps e

pub when-Keeps : (b : Bool) (m : M (Unit {0})) → Keeps InOrder m → Keeps InOrder (when b m)
when-Keeps true m h = h
when-Keeps false m h = pure-Keeps tt

pub env_audited-Keeps : (e : Env) (ev : AuditEvent) → Keeps InOrder (audited e ev)
unfolding audited
env_audited-Keeps e ev = record {
  apply = λ w h. elim (Bool-cases e.has_audit) [ inl p ↦ rw p h | inr p ↦ rw p h ];
}

commits-Keeps :
    {A : Type 0} (e : Env) (w : World) → InOrder w → (a : A) → Keeps InOrder (committed e w a)
unfolding committed
commits-Keeps e w s a = record {
  apply = λ v t. elim (Bool-cases (e.fails commit_tx)) [ inl p ↦ rw p s | inr p ↦ rw p t ];
}

back-InOrder :
    {A : Type 0} (w : World)
    → InOrder w
    → (r : Run A) → InOrder (final r)
    → InOrder (final (rolled_back w r))
unfolding rolled_back
back-InOrder w s (ok a v) t = t
back-InOrder w s (err x v) t = s

inner-Keeps :
    {A : Type 0} (e : Env) (m : M A)
    → Keeps InOrder m
    → (w : World) → InOrder w
    → Keeps InOrder (body e m w)
unfolding body
inner-Keeps e m h w s = record {
  apply = λ v t.
      back-InOrder w s ((m >>= committed e w) v)
        ((>>=-Keeps h (λ a. commits-Keeps e w s a)).apply v t);
}

-- What a transaction takes back was in order.
pub in_transaction-Keeps :
    {A : Type 0} (e : Env) (m : M A) → Keeps InOrder m → Keeps InOrder (in_transaction e m)
unfolding in_transaction
in_transaction-Keeps e m h = record {
  apply = λ w s. elim (Bool-cases e.has_transactions) [
    | inr p ↦ rw p (h.apply w s)
    | inl p ↦ rw p ((>>-Keeps (reach-Keeps e.outside begin_tx) (inner-Keeps e m h w s)).apply w s)
  ];
}

module _ (s : ResourceAdminService) where
  found_client-Keeps : (c : Option Client) → Keeps InOrder (found_client s c)
  found_client-Keeps none = raise-Keeps invalid_request
  found_client-Keeps (some c) = pure-Keeps tt

  pub known_client-Keeps : (id : String) → Keeps InOrder (known_client s id)
  known_client-Keeps id =
      >>-Keeps (reach-Keeps (outside s) _) (found_client-Keeps (s.env.client id))

  clients-Keeps : (ids : List String) → Keeps InOrder (validate_client_id_list s ids)
  unfolding validate_client_id_list
  clients-Keeps [] = pure-Keeps tt
  clients-Keeps (id ∷ ids) =
      >>-Keeps (require-Keeps (not (id == "")) _)
        (>>-Keeps (known_client-Keeps id) (clients-Keeps ids))

  pub policy_clients-Keeps : (p : Policy) → Keeps InOrder (validate_policy_clients s p)
  unfolding validate_policy_clients
  policy_clients-Keeps p = >>-Keeps (clients-Keeps _) (clients-Keeps _)

  known_provider-Keeps : (id : String) → Keeps InOrder (known_provider s id)
  known_provider-Keeps id = record {
    apply = λ w h. elim (Bool-cases (contains w.providers id)) [ inl p ↦ rw p h | inr p ↦ rw p h ];
  }

  pub provider_ref-Keeps :
      (kind : BackendKind) (id : String) → Keeps InOrder (validate_broker_provider_ref s kind id)
  unfolding validate_broker_provider_ref
  provider_ref-Keeps kind id = when-Keeps (kind_is_broker kind) _ (
      >>-Keeps (require-Keeps (not (id == "")) _)
        (>>-Keeps (reach-Keeps (outside s) _) (known_provider-Keeps id)))

  available-final :
      (exclude : String) (r : Run Resource)
      → InOrder (final r)
      → InOrder (final (available s exclude r))
  available-final exclude (ok r w) h = elim (Bool-cases (r.id == exclude)) [
    | inl p ↦ rw p h
    | inr p ↦ rw p h
  ]
  available-final exclude (err e w) h = go e
    where
      go : (x : Error) → InOrder (final (available s exclude (err x w)))
      go x = ground (arith, h)

  pub slug_available-Keeps :
      (slug exclude : String) → Keeps InOrder (assert_slug_available s slug exclude)
  unfolding assert_slug_available
  slug_available-Keeps slug exclude = record {
    apply = λ w h.
        available-final exclude (Resources.get_by_slug (outside s) slug w)
          (elim (get_by_slug-cases (outside s) slug w) [
            | inl (r, f, p) ↦ rw p h
            | inr (e, p) ↦ rw p h
          ]);
  }

  pub canonical-Keeps : (o : Option String) → Keeps InOrder (canonical s o)
  canonical-Keeps none = raise-Keeps _
  canonical-Keeps (some slug) = pure-Keeps slug

  pub patched_slug-Keeps : (r : Resource) (o : Option String) → Keeps InOrder (patched_slug s r o)
  patched_slug-Keeps r none = pure-Keeps r.slug
  patched_slug-Keeps r (some raw) = canonical-Keeps _

  pub dependents_of-Keeps : (b : Bool) (slug : String) → Keeps InOrder (dependents_of s b slug)
  unfolding Links.list_for_resource
  dependents_of-Keeps true slug = >>-Keeps (reach-Keeps (outside s) _) (record { apply = λ w h. h })
  dependents_of-Keeps false slug = pure-Keeps []
