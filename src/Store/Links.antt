-- ===== src/Store/Links.antt =====
-- internal/adapters/sqlite/fronting_link_store.go: the fronting links. Source and target slug are the
-- primary key, and both reference a resource.
use text.Mathlib.Text.{is_le}
use Prim.Native.String.{compare}
use authserver.Common.{
  String, ℕ, Bool, true, false, List, ◌∷◌, none, some, if◌then◌else◌, ◌==◌, ◌&&◌, ◌||◌, not, keep,
  length,
}
use authserver.Domain.Errors.{invalid_request, fronting_link_not_found, fronting_link_exists}
use authserver.Domain.Resources.{Resource}
use authserver.Domain.FrontingLinks.{FrontingLink}
use authserver.Store.Table.{find, update}
use authserver.Store.Sorting.{order_by, page}
use authserver.Store.Monad.{
  World, Outside, M, ok, err, ◌>>◌, reach, get_link, list_links, create_link, update_link,
  delete_link, delete_links,
}

-- ORDER BY source_slug, target_slug.
abbrev pub link_le : FrontingLink → FrontingLink → Bool
link_le a b =
    if a.source_slug == b.source_slug
    then is_le (compare a.target_slug b.target_slug)
    else is_le (compare a.source_slug b.source_slug)

abbrev pub joins : String → String → FrontingLink → Bool
joins s t l = l.source_slug == s && l.target_slug == t

abbrev pub touches : String → FrontingLink → Bool
touches slug l = l.source_slug == slug || l.target_slug == slug

pub record FrontingLinkFilter : Type 0 where
  pub source : String
  pub target : String
  pub limit : ℕ
  pub offset : ℕ

-- An empty field of the filter asks for nothing.
abbrev pub admits : FrontingLinkFilter → FrontingLink → Bool
admits f l =
    (f.source == "" || l.source_slug == f.source) && (f.target == "" || l.target_slug == f.target)

abbrev pub has_slug : String → Resource → Bool
has_slug slug r = r.slug == slug

abbrev pub is_known : World → String → Bool
is_known w slug = elim (find (has_slug slug) w.resources) [ none ↦ false | some r ↦ true ]

unfoldable pub get : Outside → String → String → M FrontingLink
get o s t = do
  reach o get_link
  λ w. elim (find (joins s t) w.links) [ none ↦ err fronting_link_not_found w | some l ↦ ok l w ]

unfoldable pub list : Outside → FrontingLinkFilter → M (List FrontingLink)
list o f = do
  reach o list_links
  λ w. ok (page f.limit f.offset (order_by link_le (keep (admits f) w.links))) w

unfoldable pub list_for_resource : Outside → String → M (List FrontingLink)
list_for_resource o slug = do
  reach o list_links
  λ w. ok (order_by link_le (keep (touches slug) w.links)) w

unfoldable pub create : Outside → FrontingLink → M (Unit {0})
create o l = do
  reach o create_link
  λ w. elim (find (joins l.source_slug l.target_slug) w.links) [
    | some old ↦ err fronting_link_exists w
    | none ↦
        if is_known w l.source_slug && is_known w l.target_slug
        then ok tt (record w { links = l ∷ w.links })
        else err invalid_request w
  ]

-- Only the scope map is written.
unfoldable pub replace : Outside → FrontingLink → M (Unit {0})
replace o l = do
  reach o update_link
  λ w. elim (find (joins l.source_slug l.target_slug) w.links) [
    | none ↦ err fronting_link_not_found w
    | some old ↦ ok tt (record w {
      links =
          update (joins l.source_slug l.target_slug) (λ r. record r { scope_map = l.scope_map })
            w.links;
    })
  ]

unfoldable pub delete : Outside → String → String → M (Unit {0})
delete o s t = do
  reach o delete_link
  λ w. elim (find (joins s t) w.links) [
    | none ↦ err fronting_link_not_found w
    | some old ↦ ok tt (record w { links = keep (λ l. not (joins s t l)) w.links })
  ]

unfoldable pub delete_for_resource : Outside → String → M ℕ
delete_for_resource o slug = do
  reach o delete_links
  λ w.
      ok (length (keep (touches slug) w.links))
        (record w { links = keep (λ l. not (touches slug l)) w.links })
