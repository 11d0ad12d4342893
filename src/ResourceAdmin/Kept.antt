-- ===== src/ResourceAdmin/Kept.antt =====
-- The administration of resources, next to that of their links, keeps both in order.
use authserver.Common.{
  String, Bool, true, false, none, some, ◌≡◌, refl, sym, ◌∙◌, ◌⊎◌, inl, inr, arith, not, ◌==◌, ◌&&◌,
  ◌||◌, eq_iff, Option-cases, Bool-cases, is_empty, subst, keep,
}
use authserver.Domain.Errors.{Error, invalid_request, internal}
use authserver.Domain.Resources.{Resource, validate_resource, is_mint}
use authserver.Domain.FrontingLinks.{ScopeMap}
use authserver.Store.Table.{find, find-In, find-test}
use authserver.Store.Sorting.{order_by}
use authserver.Store.Links
use authserver.Store.Links.{has_slug, touches, link_le}
use authserver.Store.Resources
use authserver.Store.Resources.{has_id}
use authserver.Store.Monad.{
  World, ok, err, ◌>>=◌, ◌>>◌, Keeps, >>=-Keeps, >>-Keeps, pure-Keeps, pure, require-Keeps, draw,
  list_links, resource_patched, resource_created,
}
use authserver.Token.Env.{audited}
use authserver.Fronting.Rules.{validate_resource_update, update_error}
use authserver.Fronting.Sound.{InOrder}
use authserver.Fronting.Kept.{bind-InOrder, cascade-InOrder}
use authserver.ResourceAdmin.Service.{
  ResourceAdminService, ResourcePatch, outside, fronting, create, create_checked, patch,
  patch_touched, patch_checked, patched, fronting_hooks, apply_patch, touches_field, when,
  delete_with_cascade, delete_found, do_delete, given, strip_mint_connect_policy, born,
  patched_slug,
}
use authserver.ResourceAdmin.Rows.{SourceFits, TargetFits}
use authserver.ResourceAdmin.Stored.{
  get_by_id-cases, replace-InOrder, create-InOrder, delete-InOrder,
}
use authserver.ResourceAdmin.Peeks.{
  refuse_if-Keeps, when-Keeps, env_audited-Keeps, in_transaction-Keeps, policy_clients-Keeps,
  provider_ref-Keeps, slug_available-Keeps, canonical-Keeps, patched_slug-Keeps,
  dependents_of-Keeps,
}
use authserver.ResourceAdmin.Hooks.{source-kept, target-kept}

module _ (s : ResourceAdminService) where
  stored_create-Keeps : (r : Resource) → Keeps InOrder (Resources.create s.env.lower (outside s) r)
  stored_create-Keeps r = record { apply = λ w h. create-InOrder (outside s) s.env.lower w r h }

  draw-Keeps : Keeps InOrder (draw (outside s))
  draw-Keeps = record { apply = λ w h. h }

  create_checked-Keeps : (q : Resource) → Keeps InOrder (create_checked s q)
  create_checked-Keeps q = >>-Keeps (refuse_if-Keeps _) (
      >>-Keeps (provider_ref-Keeps s _ _) (
        >>-Keeps (policy_clients-Keeps s _) (
          >>-Keeps (slug_available-Keeps s _ _) (
            >>=-Keeps draw-Keeps (λ id.
              >>-Keeps (stored_create-Keeps (born s (strip_mint_connect_policy s q) id)) (
                >>-Keeps (env_audited-Keeps s.env (resource_created id q.slug))
                  (pure-Keeps (born s (strip_mint_connect_policy s q) id))))))))

  pub create-Keeps : (r : Resource) → Keeps InOrder (create s r)
  unfolding create
  create-Keeps r =
      >>-Keeps (require-Keeps (r.id == "") _)
        (>>=-Keeps (canonical-Keeps s _) (λ slug. create_checked-Keeps (record r { slug = slug })))

  get_by_id-Keeps : (id : String) → Keeps InOrder (Resources.get_by_id (outside s) id)
  get_by_id-Keeps id = record {
    apply = λ w h. elim (get_by_id-cases (outside s) id w) [
      | inl (r, f, p) ↦ rw p h
      | inr (e, p) ↦ rw p h
    ];
  }

  deleted-Keeps :
      (id : String) (cascade : Bool) (r : Resource) → Keeps InOrder (delete_found s id cascade r)
  deleted-Keeps id cascade r = >>=-Keeps (dependents_of-Keeps s _ _) (λ deps.
      >>-Keeps (require-Keeps (is_empty deps || cascade) _) (
        >>-Keeps
          (in_transaction-Keeps s.env (do_delete s id r.slug cascade deps) (
            >>-Keeps
              (when-Keeps (cascade && not (is_empty deps) && s.has_fronting) _
                (>>=-Keeps (cascade-InOrder (fronting s) r.slug "admin") (λ _. pure-Keeps tt)))
              (delete-InOrder (outside s) id)))
          (>>-Keeps (env_audited-Keeps s.env _) (pure-Keeps deps))))

  pub delete-Keeps :
      (id : String) (cascade : Bool) → Keeps InOrder (delete_with_cascade s id cascade)
  unfolding delete_with_cascade
  delete-Keeps id cascade =
      >>-Keeps (require-Keeps (not (id == "")) _)
        (>>=-Keeps (get_by_id-Keeps id) (λ r. deleted-Keeps id cascade r))

  -- The hooks pass with the stored row, or fail; they write nothing.
  hooks-cases :
      (id : String) (p : ResourcePatch) (r : Resource) (w : World)
      → ((prev : Resource) × (find (has_id id) w.resources ≡ some prev)
          × (update_error prev r (order_by link_le (keep (touches prev.slug) w.links)) ≡ none)
          × (fronting_hooks s id p r w ≡ ok tt w))
        ⊎ ((e : Error) × (fronting_hooks s id p r w ≡ err e w))
  unfolding validate_resource_update Links.list_for_resource
  hooks-cases id p r w = elim (get_by_id-cases (outside s) id w) [
    | inr (e, q) ↦ inr (e, ground (arith, q))
    | inl (prev, f, q) ↦ elim (Bool-cases ((outside s).fails list_links)) [
      | inl broken ↦ elim (Bool-cases (given p.slug && not (prev.slug == r.slug))) [
        | inl renamed ↦ inr (internal, ground (arith, q, broken, renamed))
        | inr kept ↦ inr (internal, ground (arith, q, broken, kept))
      ]
      | inr works ↦
          elim (Bool-cases (
            given p.slug
            && not (prev.slug == r.slug)
            && not (is_empty (order_by link_le (keep (touches prev.slug) w.links))))) [
              | inl held ↦ inr (invalid_request, ground (arith, q, works, held))
              | inr free ↦
                  elim (Option-cases
                    (update_error prev r (order_by link_le (keep (touches prev.slug) w.links)))) [
                      | inr (e, u) ↦ inr (e, ground (arith, q, works, free, u))
                      | inl u ↦ inl (prev, f, u, ground (arith, q, works, free, u))
                    ]
            ]
    ]
  ]

  strip-id : (r : Resource) → (patched s r).id ≡ r.id
  unfolding strip_mint_connect_policy
  strip-id r = elim (Bool-cases (is_mint r)) [ inl p ↦ rw p refl | inr p ↦ rw p refl ]

  strip-source : (m : ScopeMap) (r : Resource) → SourceFits m r → SourceFits m (patched s r)
  unfolding strip_mint_connect_policy
  strip-source m r h = elim (Bool-cases (is_mint r)) [ inl p ↦ rw p h | inr p ↦ rw p h ]

  strip-target : (m : ScopeMap) (r : Resource) → TargetFits m r → TargetFits m (patched s r)
  unfolding strip_mint_connect_policy
  strip-target m r h = elim (Bool-cases (is_mint r)) [ inl p ↦ rw p h | inr p ↦ rw p h ]

  module _ (fronted : s.has_fronting ≡ true) where
    saved-Keeps :
        (id : String) (p : ResourcePatch) (r : Resource)
        → validate_resource s.parse_uri r ≡ none
        → r.id ≡ id
        → Keeps InOrder (do
          fronting_hooks s id p r
          Resources.replace s.env.lower (outside s) (patched s r)
          audited s.env (resource_patched r.id r.slug)
          pure (patched s r))
    saved-Keeps id p r v e = record {
      apply = λ w h. elim (hooks-cases id p r w) [
        | inr (x, q) ↦ rw (q, ◌>>=◌) h
        | inl (prev, f, u, q) ↦
            rw (q, ◌>>=◌)
              (bind-InOrder (Resources.replace s.env.lower (outside s) (patched s r)) _ w
                (replace-InOrder (outside s) s.env.lower w prev (patched s r) h
                  (find-In (has_id id) prev w.resources f)
                  ((eq_iff prev.id id).0 (find-test (has_id id) prev w.resources f)
                    ∙ sym e
                    ∙ sym (strip-id r))
                  (λ l m at k.
                    strip-source l.scope_map r
                      (source-kept s.parse_uri w.links prev r v u l m at k))
                  (λ l m at k.
                    strip-target l.scope_map r
                      (target-kept s.parse_uri w.links prev r v u l m at k)))
                (λ _. >>-Keeps (env_audited-Keeps s.env _) (pure-Keeps _)))
      ];
    }

    checked-Keeps :
        (id : String) (p : ResourcePatch) (r : Resource)
        → r.id ≡ id
        → Keeps InOrder (patch_checked s id p r)
    checked-Keeps id p r e = elim (Option-cases (validate_resource s.parse_uri r)) [
      | inr (x, v) ↦ record { apply = λ w h. rw v h }
      | inl v ↦
          >>-Keeps
            (>>-Keeps (refuse_if-Keeps _) (
              >>-Keeps
                (when-Keeps (given p.backend_kind || given p.broker_provider_id) _
                  (provider_ref-Keeps s _ _))
                (>>-Keeps (when-Keeps (given p.policy) _ (policy_clients-Keeps s _))
                  (when-Keeps (given p.slug) _ (slug_available-Keeps s _ _)))))
            (subst
              (λ b. Keeps InOrder (do
                when b (fronting_hooks s id p r)
                Resources.replace s.env.lower (outside s) (patched s r)
                audited s.env (resource_patched r.id r.slug)
                pure (patched s r)))
              (sym fronted) (saved-Keeps id p r v e))
    ]

    touched-Keeps :
        (b : Bool) (id : String) (p : ResourcePatch) (r : Resource)
        → r.id ≡ id
        → Keeps InOrder (patch_touched s b id p r)
    touched-Keeps true id p r e = checked-Keeps id p r e
    touched-Keeps false id p r e = pure-Keeps r

    found-Keeps :
        (id : String) (p : ResourcePatch) (r : Resource)
        → r.id ≡ id
        → Keeps InOrder (
            patched_slug s r p.slug >>= λ slug.
            patch_touched s (touches_field s p) id p (apply_patch s p slug r))
    found-Keeps id p r e =
        >>=-Keeps (patched_slug-Keeps s r p.slug)
          (λ slug. touched-Keeps (touches_field s p) id p _ e)

    pub patch-Keeps : (id : String) (p : ResourcePatch) → Keeps InOrder (patch s id p)
    unfolding patch
    patch-Keeps id p = >>-Keeps (require-Keeps (not (id == "")) _) (record {
      apply = λ w h. elim (get_by_id-cases (outside s) id w) [
        | inr (x, q) ↦ rw (q, ◌>>=◌) h
        | inl (r, f, q) ↦
            rw (q, ◌>>=◌)
              ((found-Keeps id p r
                  ((eq_iff r.id id).0 (find-test (has_id id) r w.resources f))).apply
                w h)
      ];
    })
