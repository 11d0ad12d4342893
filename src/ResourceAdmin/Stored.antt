-- ===== src/ResourceAdmin/Stored.antt =====
-- The statements of the resource store keep the links in order.
use authserver.Common.{
  String, false, ◌∷◌, some, ◌≡◌, ◌⊎◌, inl, inr, In, arith, ◌==◌, any, keep, not, Bool-cases,
  Option-cases, ◌||◌,
}
use authserver.Domain.Errors.{
  Error, internal, invalid_slug, resource_not_found, resource_has_references,
}
use authserver.Domain.Resources.{Resource, normalize_slug}
use authserver.Domain.FrontingLinks.{FrontingLink}
use authserver.Store.Table.{find, update}
use authserver.Store.Links.{has_slug}
use authserver.Store.Resources
use authserver.Store.Resources.{has_id, strands, takes_slug, has_references}
use authserver.Store.Monad.{
  World, Outside, ok, err, final, Keeps, update_resource, create_resource, delete_resource,
  get_resource,
}
use authserver.Fronting.Sound.{InOrder}
use authserver.ResourceAdmin.Rows.{SourceFits, TargetFits, update-Sound}
use authserver.ResourceAdmin.Moves.{insert-Sound, delete-Sound}

module _ (o : Outside) where
  pub get_by_slug-cases :
      (slug : String) (w : World)
      → ((r : Resource) × (find (has_slug slug) w.resources ≡ some r)
          × (Resources.get_by_slug o slug w ≡ ok r w))
        ⊎ ((e : Error) × (Resources.get_by_slug o slug w ≡ err e w))
  unfolding Resources.get_by_slug
  get_by_slug-cases slug w = elim (Bool-cases (o.fails get_resource)) [
    | inl p ↦ inr (internal, ground (arith, p))
    | inr p ↦ elim (Option-cases (find (has_slug slug) w.resources)) [
      | inl q ↦ inr (resource_not_found, ground (arith, p, q))
      | inr (r, q) ↦ inl (r, q, ground (arith, p, q))
    ]
  ]

  pub get_by_id-cases :
      (id : String) (w : World)
      → ((r : Resource) × (find (has_id id) w.resources ≡ some r)
          × (Resources.get_by_id o id w ≡ ok r w))
        ⊎ ((e : Error) × (Resources.get_by_id o id w ≡ err e w))
  unfolding Resources.get_by_id
  get_by_id-cases id w = elim (Bool-cases (o.fails get_resource)) [
    | inl p ↦ inr (internal, ground (arith, p))
    | inr p ↦ elim (Option-cases (find (has_id id) w.resources)) [
      | inl q ↦ inr (resource_not_found, ground (arith, p, q))
      | inr (r, q) ↦ inl (r, q, ground (arith, p, q))
    ]
  ]

  module _ (lower : String → String) (w : World) where
    abbrev named : Resource → String → Resource
    named r slug = record r { slug = slug }

    replace-cases :
        (r : Resource)
        → ((slug : String) × (any (takes_slug r.id slug) w.resources ≡ false)
            × (any (strands w.links r.id slug) w.resources ≡ false)
            × (Resources.replace lower o r w
                ≡ ok tt (record w {
                  resources =
                      update
                        (has_id r.id)
                        (λ x. record (named r slug) { created_at = x.created_at })
                        w.resources;
                })))
          ⊎ ((e : Error) × (Resources.replace lower o r w ≡ err e w))
    unfolding Resources.replace
    replace-cases r = elim (Option-cases (normalize_slug lower r.slug)) [
      | inl n ↦ inr (invalid_slug, ground (arith, n))
      | inr (slug, n) ↦ elim (Bool-cases (o.fails update_resource)) [
        | inl p ↦ inr (internal, ground (arith, n, p))
        | inr p ↦ elim (Bool-cases (any (takes_slug r.id slug) w.resources)) [
          | inl q ↦ inr (internal, ground (arith, n, p, q))
          | inr q ↦ elim (Bool-cases (any (strands w.links r.id slug) w.resources)) [
            | inl t ↦ inr (internal, ground (arith, n, p, q, t))
            | inr t ↦ elim (Option-cases (find (has_id r.id) w.resources)) [
              | inl f ↦ inr (resource_not_found, ground (arith, n, p, q, t, f))
              | inr (x, f) ↦ inl (slug, q, t, ground (arith, n, p, q, t, f))
            ]
          ]
        ]
      ]
    ]

    -- A row that is written with scopes that fit the links of the old one.
    pub replace-InOrder :
        (prev r : Resource)
        → InOrder w
        → In prev w.resources
        → prev.id ≡ r.id
        → ((l : FrontingLink)
            → In l w.links
            → l.source_slug ≡ prev.slug
            → SourceFits l.scope_map prev
            → SourceFits l.scope_map r)
        → ((l : FrontingLink)
            → In l w.links
            → l.target_slug ≡ prev.slug
            → TargetFits l.scope_map prev
            → TargetFits l.scope_map r)
        → InOrder (final (Resources.replace lower o r w))
    replace-InOrder prev r s m e sources targets = elim (replace-cases r) [
      | inr (x, p) ↦ rw p s
      | inl (slug, free, held, p) ↦ rw p (
          update-Sound w.resources w.links prev (named r slug) s.keyed m e free held sources targets
            s)
    ]

    create-cases :
        (r : Resource)
        → ((slug : String) × (any (λ old. old.id == r.id || old.slug == slug) w.resources ≡ false)
            × (Resources.create lower o r w
                ≡ ok tt (record w { resources = named r slug ∷ w.resources })))
          ⊎ ((e : Error) × (Resources.create lower o r w ≡ err e w))
    unfolding Resources.create
    create-cases r = elim (Option-cases (normalize_slug lower r.slug)) [
      | inl n ↦ inr (invalid_slug, ground (arith, n))
      | inr (slug, n) ↦ elim (Bool-cases (o.fails create_resource)) [
        | inl p ↦ inr (internal, ground (arith, n, p))
        | inr p ↦ elim (Bool-cases (any (λ old. old.id == r.id || old.slug == slug) w.resources)) [
          | inl q ↦ inr (internal, ground (arith, n, p, q))
          | inr q ↦ inl (slug, q, ground (arith, n, p, q))
        ]
      ]
    ]

    pub create-InOrder : (r : Resource) → InOrder w → InOrder (final (Resources.create lower o r w))
    create-InOrder r s = elim (create-cases r) [
      | inr (x, p) ↦ rw p s
      | inl (slug, new, p) ↦ rw p (insert-Sound w.resources w.links (named r slug) new s)
    ]

  delete-cases :
      (id : String) (w : World)
      → ((any (has_references w id) w.resources ≡ false)
          × (Resources.delete o id w
              ≡ ok tt (record w { resources = keep (λ r. not (has_id id r)) w.resources })))
        ⊎ ((e : Error) × (Resources.delete o id w ≡ err e w))
  unfolding Resources.delete
  delete-cases id w = elim (Bool-cases (o.fails delete_resource)) [
    | inl p ↦ inr (internal, ground (arith, p))
    | inr p ↦ elim (Bool-cases (any (has_references w id) w.resources)) [
      | inl q ↦ inr (resource_has_references, ground (arith, p, q))
      | inr q ↦ elim (Option-cases (find (has_id id) w.resources)) [
        | inl f ↦ inr (resource_not_found, ground (arith, p, q, f))
        | inr (x, f) ↦ inl (q, ground (arith, p, q, f))
      ]
    ]
  ]

  pub delete-InOrder : (id : String) → Keeps InOrder (Resources.delete o id)
  delete-InOrder id = record {
    apply = λ w s. elim (delete-cases id w) [
      | inr (x, p) ↦ rw p s
      | inl (u, p) ↦ rw p (delete-Sound w id u s)
    ];
  }
