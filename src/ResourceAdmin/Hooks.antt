-- ===== src/ResourceAdmin/Hooks.antt =====
-- What the fronting hooks of a patched resource establish: the scopes that its links use stay.
use authserver.Common.{
  String, true, false, List, [], ◌∷◌, Option, none, ◌≡◌, refl, inl, inr, In, arith, ap, all, any,
  contains, is_empty, keep, keep-In, ◌==◌, ◌&&◌, eq_iff, Bool-cases,
}
use authserver.Domain.Resources.{
  Resource, ResourceUri, BackendKind, mint, broker, other_kind, same_kind, scope_name_set,
  validate_resource, kind_is_broker,
}
use authserver.Domain.FrontingLinks.{FrontingLink, ScopeMap}
use authserver.Store.Sorting.{order_by, In-order_by}
use authserver.Store.Links.{touches, link_le}
use authserver.Fronting.Rules.{update_error, blocks, lost}
use authserver.ResourceAdmin.Rows.{SourceFits, TargetFits, any-In}

same_kind-eq : (a b : BackendKind) → same_kind a b ≡ true → a ≡ b
same_kind-eq mint mint h = refl
same_kind-eq broker broker h = refl
same_kind-eq (other_kind a) (other_kind b) h = ap other_kind ((eq_iff a b).0 h)
same_kind-eq mint broker h = cc h
same_kind-eq mint (other_kind b) h = cc h
same_kind-eq broker mint h = cc h
same_kind-eq broker (other_kind b) h = cc h
same_kind-eq (other_kind a) mint h = cc h
same_kind-eq (other_kind a) broker h = cc h

values-kept :
    (had has ts : List String)
    → any (lost had has) ts ≡ false
    → all (contains had) ts ≡ true
    → all (contains has) ts ≡ true
values-kept had has [] h k = refl
values-kept had has (t ∷ ts) h k = ground (arith, h, k, values-kept had has ts)

sources-kept :
    (had has : List String) (m : ScopeMap)
    → any (λ e. lost had has e.source) m ≡ false
    → all (λ e. contains had e.source) m ≡ true
    → all (λ e. contains has e.source) m ≡ true
sources-kept had has [] h k = refl
sources-kept had has (e ∷ m) h k = ground (arith, h, k, sources-kept had has m)

targets-kept :
    (had has : List String) (m : ScopeMap)
    → any (λ e. any (lost had has) e.targets) m ≡ false
    → all (λ e. all (contains had) e.targets) m ≡ true
    → all (λ e. all (contains has) e.targets) m ≡ true
targets-kept had has [] h k = refl
targets-kept had has (e ∷ m) h k =
    ground (arith, h, k, values-kept had has e.targets, targets-kept had has m)

In-is_empty : (l : FrontingLink) (ls : List FrontingLink) → In l ls → is_empty ls ≡ false
In-is_empty l [] m = absurd m
In-is_empty l (k ∷ ls) m = refl

-- A broker that is valid has a provider.
provider-given :
    (parse : String → Option ResourceUri) (r : Resource)
    → validate_resource parse r ≡ none
    → (kind_is_broker r.backend_kind && r.broker_provider_id == "") ≡ false
unfolding validate_resource
provider-given parse r h = go r.backend_kind refl
  where
    go :
        (k : BackendKind)
        → r.backend_kind ≡ k
        → (kind_is_broker r.backend_kind && r.broker_provider_id == "") ≡ false
    go mint e = rw e refl
    go (other_kind k) e = rw e refl
    go broker e = ground (arith, h, e)

module _ (parse : String → Option ResourceUri) (ls : List FrontingLink) (prev next : Resource)
    (valid : validate_resource parse next ≡ none)
    (passed : update_error prev next (order_by link_le (keep (touches prev.slug) ls)) ≡ none) where
  -- What a link of the resource knows once the hooks have passed.
  unblocked :
      (l : FrontingLink)
      → In l ls
      → touches prev.slug l ≡ true
      → (prev.backend_kind ≡ next.backend_kind)
        × (blocks prev.slug (scope_name_set prev.scopes) (scope_name_set next.scopes) l ≡ false)
  unblocked l m t =
      let i =
        (In-order_by link_le l (keep (touches prev.slug) ls)).1
          (keep-In (touches prev.slug) l ls m t) in
      let full = In-is_empty l (order_by link_le (keep (touches prev.slug) ls)) i in
      elim (Bool-cases (same_kind prev.backend_kind next.backend_kind)) [
        | inr p ↦ ground (arith, passed, full, p)
        | inl p ↦ (
          same_kind-eq prev.backend_kind next.backend_kind p,
          any-In (blocks prev.slug (scope_name_set prev.scopes) (scope_name_set next.scopes)) l
              (order_by link_le (keep (touches prev.slug) ls)) (ground (arith, passed, full, p)) i,
        )
      ]

  pub source-kept :
      (l : FrontingLink)
      → In l ls
      → l.source_slug ≡ prev.slug
      → SourceFits l.scope_map prev
      → SourceFits l.scope_map next
  source-kept l m e (k, f) =
      let at = (eq_iff l.source_slug prev.slug).1 e in
      let (kinds, free) = unblocked l m (ground (arith, at)) in
      (
        rw (← kinds) k,
        sources-kept (scope_name_set prev.scopes) (scope_name_set next.scopes) l.scope_map
            (ground (arith, free, at)) f,
      )

  pub target-kept :
      (l : FrontingLink)
      → In l ls
      → l.target_slug ≡ prev.slug
      → TargetFits l.scope_map prev
      → TargetFits l.scope_map next
  target-kept l m e (k, f, b) =
      let at = (eq_iff l.target_slug prev.slug).1 e in
      let (kinds, free) = unblocked l m (ground (arith, at)) in
      (
        rw (← kinds) k,
        targets-kept (scope_name_set prev.scopes) (scope_name_set next.scopes) l.scope_map
            (ground (arith, free, at)) f,
        provider-given parse next valid,
      )
