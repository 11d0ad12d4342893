-- ===== src/ResourceAdmin/Administered.antt =====
-- Every request to the administration of resources and of their links keeps both in order.
use authserver.Common.{
  String, Bool, true, List, [], ◌∷◌, Option, none, some, ◌≡◌, refl, inl, inr, In, not, ◌==◌,
  Bool-cases,
}
use authserver.Domain.Errors.{invalid_request}
use authserver.Domain.Resources.{Resource, Policy, is_mint}
use authserver.Store.Table.{find-In}
use authserver.Store.Links.{has_slug}
use authserver.Store.Resources
use authserver.Store.Monad.{
  World, M, final, ◌>>=◌, ◌>>◌, Keeps, >>-Keeps, pure-Keeps, require-Keeps, require,
  resource_policy_changed,
}
use authserver.Fronting.Sound.{InOrder}
use authserver.Fronting.Kept.{bind-InOrder, Operation, perform, perform-InOrder}
use authserver.ResourceAdmin.Service.{
  ResourceAdminService, ResourcePatch, outside, fronting, create, patch, delete_with_cascade,
}
use authserver.ResourceAdmin.Policies.{
  save, validate_return_url, add_allowed_client, remove_allowed_client, add_allowed_return_url,
  remove_allowed_return_url, add_runtime_client_id, remove_runtime_client_id,
}
use authserver.ResourceAdmin.Stored.{get_by_slug-cases, replace-InOrder}
use authserver.ResourceAdmin.Peeks.{refuse_if-Keeps, env_audited-Keeps, known_client-Keeps}
use authserver.ResourceAdmin.Kept.{create-Keeps, patch-Keeps, delete-Keeps}

module _ (s : ResourceAdminService) where
  save-InOrder :
      (action : String) (r : Resource) (v : String) (set : List String → Policy) (old : List String)
      (new : Option (List String)) (w : World)
      → InOrder w
      → In r w.resources
      → InOrder (final (save s action r v set old new w))
  save-InOrder action r v set old none w h m = h
  save-InOrder action r v set old (some new) w h m =
      let next : Resource = record r { policy = set new; updated_at = (outside s).now } in
      bind-InOrder (Resources.replace s.env.lower (outside s) next) _ w
        (replace-InOrder (outside s) s.env.lower w r next h m refl (λ l i e k. k) (λ l i e k. k))
        (λ _.
          >>-Keeps (env_audited-Keeps s.env (resource_policy_changed action r.slug v))
            (pure-Keeps new))

  -- A step on the row that a slug names.
  edit-Keeps :
      (slug : String) (k : Resource → M (List String))
      → ((r : Resource) (w : World) → InOrder w → In r w.resources → InOrder (final (k r w)))
      → Keeps InOrder (Resources.get_by_slug (outside s) slug >>= k)
  edit-Keeps slug k step = record {
    apply = λ w h. elim (get_by_slug-cases (outside s) slug w) [
      | inr (x, q) ↦ rw (q, ◌>>=◌) h
      | inl (r, f, q) ↦ rw (q, ◌>>=◌) (step r w h (find-In (has_slug slug) r w.resources f))
    ];
  }

  add_allowed_client-Keeps : (slug id : String) → Keeps InOrder (add_allowed_client s slug id)
  unfolding add_allowed_client
  add_allowed_client-Keeps slug id =
      >>-Keeps (require-Keeps (not (id == "")) _)
        (>>-Keeps (known_client-Keeps s id) (edit-Keeps slug _ (λ r. save-InOrder _ r id _ _ _)))

  remove_allowed_client-Keeps : (slug id : String) → Keeps InOrder (remove_allowed_client s slug id)
  unfolding remove_allowed_client
  remove_allowed_client-Keeps slug id =
      >>-Keeps (require-Keeps (not (id == "")) _)
        (edit-Keeps slug _ (λ r. save-InOrder _ r id _ _ _))

  add_runtime_client_id-Keeps : (slug id : String) → Keeps InOrder (add_runtime_client_id s slug id)
  unfolding add_runtime_client_id
  add_runtime_client_id-Keeps slug id =
      >>-Keeps (require-Keeps (not (id == "")) _)
        (>>-Keeps (known_client-Keeps s id) (edit-Keeps slug _ (λ r. save-InOrder _ r id _ _ _)))

  remove_runtime_client_id-Keeps :
      (slug id : String) → Keeps InOrder (remove_runtime_client_id s slug id)
  unfolding remove_runtime_client_id
  remove_runtime_client_id-Keeps slug id =
      >>-Keeps (require-Keeps (not (id == "")) _)
        (edit-Keeps slug _ (λ r. save-InOrder _ r id _ _ _))

  -- A connect policy is a broker's.
  broker_only :
      (r : Resource) (k : M (List String)) (w : World)
      → InOrder w
      → InOrder (final (k w))
      → InOrder (final ((require (not (is_mint r)) invalid_request >> k) w))
  broker_only r k w h t = elim (Bool-cases (is_mint r)) [ inl p ↦ rw p h | inr p ↦ rw p t ]

  add_return_url-Keeps : (slug url : String) → Keeps InOrder (add_allowed_return_url s slug url)
  unfolding add_allowed_return_url
  add_return_url-Keeps slug url =
      >>-Keeps (refuse_if-Keeps (validate_return_url s.parse_uri url))
        (edit-Keeps slug _ (λ r w h m. broker_only r _ w h (save-InOrder _ r url _ _ _ w h m)))

  remove_return_url-Keeps :
      (slug url : String) → Keeps InOrder (remove_allowed_return_url s slug url)
  unfolding remove_allowed_return_url
  remove_return_url-Keeps slug url =
      >>-Keeps (require-Keeps (not (url == "")) _)
        (edit-Keeps slug _ (λ r w h m. broker_only r _ w h (save-InOrder _ r url _ _ _ w h m)))

-- A request to the administration.
pub data Request : Type 0 where
  on_links : Operation → Request
  creates : Resource → Request
  patches : String → ResourcePatch → Request
  deletes : String → Bool → Request
  adds_client removes_client adds_runtime removes_runtime : String → String → Request
  adds_url removes_url : String → String → Request

module _ (s : ResourceAdminService) where
  abbrev pub serve : Request → World → World
  serve (on_links op) w = perform (fronting s) op w
  serve (creates r) w = final (create s r w)
  serve (patches id p) w = final (patch s id p w)
  serve (deletes id cascade) w = final (delete_with_cascade s id cascade w)
  serve (adds_client slug id) w = final (add_allowed_client s slug id w)
  serve (removes_client slug id) w = final (remove_allowed_client s slug id w)
  serve (adds_runtime slug id) w = final (add_runtime_client_id s slug id w)
  serve (removes_runtime slug id) w = final (remove_runtime_client_id s slug id w)
  serve (adds_url slug url) w = final (add_allowed_return_url s slug url w)
  serve (removes_url slug url) w = final (remove_allowed_return_url s slug url w)

  abbrev pub serve_all : List Request → World → World
  serve_all [] w = w
  serve_all (r ∷ rs) w = serve_all rs (serve r w)

  serve-InOrder :
      s.has_fronting ≡ true → (r : Request) (w : World) → InOrder w → InOrder (serve r w)
  serve-InOrder f (on_links op) w h = perform-InOrder (fronting s) op w h
  serve-InOrder f (creates r) w h = (create-Keeps s r).apply w h
  serve-InOrder f (patches id p) w h = (patch-Keeps s f id p).apply w h
  serve-InOrder f (deletes id cascade) w h = (delete-Keeps s id cascade).apply w h
  serve-InOrder f (adds_client slug id) w h = (add_allowed_client-Keeps s slug id).apply w h
  serve-InOrder f (removes_client slug id) w h = (remove_allowed_client-Keeps s slug id).apply w h
  serve-InOrder f (adds_runtime slug id) w h = (add_runtime_client_id-Keeps s slug id).apply w h
  serve-InOrder f (removes_runtime slug id) w h =
      (remove_runtime_client_id-Keeps s slug id).apply w h
  serve-InOrder f (adds_url slug url) w h = (add_return_url-Keeps s slug url).apply w h
  serve-InOrder f (removes_url slug url) w h = (remove_return_url-Keeps s slug url).apply w h

  -- Whatever is asked of the administration of resources and fronting links, with calls that fail
  -- too, the links stay without cycles and well formed, each joins two resources whose kinds and
  -- scopes its scope map fits, and no resource id stands twice, when it was so before and the
  -- fronting hooks are wired.
  pub serve_all-InOrder :
      s.has_fronting ≡ true → (rs : List Request) (w : World) → InOrder w → InOrder (serve_all rs w)
  serve_all-InOrder f [] w h = h
  serve_all-InOrder f (r ∷ rs) w h = serve_all-InOrder f rs (serve r w) (serve-InOrder f r w h)
