-- ===== src/Store/Resources.antt =====
-- internal/adapters/sqlite/resource_store.go: the resources. Ids and slugs are unique; fronting
-- links reference a slug, and consent grants and issuances an id.
use text.Mathlib.Text.{is_le}
use Prim.Native.String.{compare}
use authserver.Common.{
  String, Bool, true, false, List, [], ◌∷◌, none, some, if◌then◌else◌, ◌==◌, ◌&&◌, ◌||◌, not, keep,
  take, any,
}
use authserver.Domain.Errors.{resource_not_found, resource_has_references, invalid_slug, internal}
use authserver.Domain.Resources.{Resource, normalize_slug}
use authserver.Domain.FrontingLinks.{FrontingLink}
use authserver.Store.Table.{find, update}
use authserver.Store.Sorting.{order_by}
use authserver.Store.Links.{has_slug, touches}
use authserver.Store.Monad.{
  pure, World, Outside, M, ok, err, ◌>>◌, reach, get_resource, resolve_resource, list_resources,
  create_resource, update_resource, delete_resource,
}

abbrev pub has_id : String → Resource → Bool
has_id id r = r.id == id

abbrev pub slug_le : Resource → Resource → Bool
slug_le a b = is_le (compare a.slug b.slug)

-- A foreign key of a link to a slug that an update of the row takes away.
abbrev pub strands : List FrontingLink → String → String → Resource → Bool
strands ls id slug old = old.id == id && not (old.slug == slug) && any (touches old.slug) ls

abbrev pub takes_slug : String → String → Resource → Bool
takes_slug id slug r = not (r.id == id) && r.slug == slug

abbrev pub has_references : World → String → Resource → Bool
has_references w id r =
    r.id == id
    && (any (touches r.slug) w.links
        || any (λ c. c.resource_id == id) w.consents
        || any (λ i. i.resource_id == id) w.issuances)

unfoldable pub get_by_slug : Outside → String → M Resource
get_by_slug o slug = do
  reach o get_resource
  λ w. elim (find (has_slug slug) w.resources) [ none ↦ err resource_not_found w | some r ↦ ok r w ]

unfoldable pub get_by_id : Outside → String → M Resource
get_by_id o id = do
  reach o get_resource
  λ w. elim (find (has_id id) w.resources) [ none ↦ err resource_not_found w | some r ↦ ok r w ]

abbrev pub rows_for : Bool → Outside → String → M (List Resource)
rows_for true o s = pure []
rows_for false o s = do
  reach o resolve_resource
  λ w. ok (take 2 (keep (λ r. r.slug == s || r.uri == s) w.resources)) w

-- LIMIT 2: the registry asks only whether there is one row.
unfoldable pub resolve : Outside → String → M (List Resource)
resolve o s = rows_for (s == "") o s

-- With the empty filter.
unfoldable pub list : Outside → M (List Resource)
list o = do reach o list_resources; λ w. ok (order_by slug_le w.resources) w

unfoldable pub delete : Outside → String → M (Unit {0})
delete o id = do
  reach o delete_resource
  λ w.
      if any (has_references w id) w.resources
      then err resource_has_references w
      else elim (find (has_id id) w.resources) [
        | none ↦ err resource_not_found w
        | some r ↦ ok tt (record w { resources = keep (λ r. not (has_id id r)) w.resources })
      ]

module _ (to_lower : String → String) where
  insert_row : Resource → M (Unit {0})
  insert_row r w =
      if any (λ old. old.id == r.id || old.slug == r.slug) w.resources
      then err internal w
      else ok tt (record w { resources = r ∷ w.resources })

  unfoldable pub create : Outside → Resource → M (Unit {0})
  unfolding insert_row
  create o r = elim (normalize_slug to_lower r.slug) [
    | none ↦ λ w. err invalid_slug w
    | some slug ↦ do reach o create_resource; insert_row (record r { slug = slug })
  ]

  update_row : Resource → M (Unit {0})
  update_row r w =
      if any (takes_slug r.id r.slug) w.resources || any (strands w.links r.id r.slug) w.resources
      then err internal w
      else elim (find (has_id r.id) w.resources) [
        | none ↦ err resource_not_found w
        | some old ↦ ok tt (record w {
          resources =
              update (has_id r.id) (λ x. record r { created_at = x.created_at }) w.resources;
        })
      ]

  unfoldable pub replace : Outside → Resource → M (Unit {0})
  unfolding update_row
  replace o r = elim (normalize_slug to_lower r.slug) [
    | none ↦ λ w. err invalid_slug w
    | some slug ↦ do reach o update_resource; update_row (record r { slug = slug })
  ]
