-- ===== src/Fronting/Rules.antt =====
-- The checks of internal/services/fronting.go on a link before it is written, and on a resource
-- before it is changed.
use authserver.Common.{
  String, Bool, true, false, List, Option, none, some, if◌then◌else◌, ◌==◌, ◌&&◌, ◌||◌, not,
  contains, is_empty, all, any,
}
use authserver.Domain.Errors.{
  Error, invalid_request, resource_not_found, fronting_link_not_found, fronting_link_exists,
}
use authserver.Domain.Resources.{
  BackendKind, mint, broker, other_kind, Resource, is_mint, is_broker, same_kind, scope_name_set,
  and_then,
}
use authserver.Domain.FrontingLinks.{Mapping, ScopeMap, FrontingLink, validate_link}
use authserver.Store.Links
use authserver.Store.Resources
use authserver.Store.Monad.{Outside, M, Run, ok, err, ◌>>=◌, ◌>>◌, raise, refuse_if}
use authserver.Fronting.Cycle.{assert_no_cycle}

-- A resource that a link names must be there.
abbrev named_resource : Run Resource → Run Resource
named_resource (ok r w) = ok r w
named_resource (err resource_not_found w) = err invalid_request w
named_resource (err e w) = err e w

unfoldable pub lookup_resource : Outside → String → M Resource
lookup_resource o slug w = named_resource (Resources.get_by_slug o slug w)

abbrev pub mapping_fits : List String → List String → Mapping → Bool
mapping_fits src tgt m = contains src m.source && all (contains tgt) m.targets

unfoldable pub assert_scope_map_membership : ScopeMap → Resource → Resource → Option Error
assert_scope_map_membership m source target =
    if all (mapping_fits (scope_name_set source.scopes) (scope_name_set target.scopes)) m
    then none
    else some invalid_request

abbrev pub can_be_target : BackendKind → Bool
can_be_target mint = true
can_be_target broker = true
can_be_target (other_kind k) = false

-- The checks of `validateForPatch` on the two resources.
unfoldable pub check_ends : ScopeMap → Resource → Resource → Option Error
unfolding assert_scope_map_membership
check_ends m source target =
    if not (is_mint source)
    then some invalid_request
    else if not (can_be_target target.backend_kind)
    then some invalid_request
    else and_then (assert_scope_map_membership m source target)
        (if is_broker target && target.broker_provider_id == "" then some invalid_request else none)

unfoldable pub check_link : Outside → FrontingLink → M (Unit {0})
unfolding lookup_resource check_ends
check_link o l = do
  refuse_if (validate_link l)
  source ← lookup_resource o l.source_slug
  target ← lookup_resource o l.target_slug
  refuse_if (check_ends l.scope_map source target)

unfoldable pub validate_for_patch : Outside → Option FrontingLink → M (Unit {0})
unfolding check_link
validate_for_patch o none = raise invalid_request
validate_for_patch o (some l) = check_link o l

abbrev must_be_new : Run FrontingLink → Run (Unit {0})
must_be_new (ok l w) = err fronting_link_exists w
must_be_new (err fronting_link_not_found w) = ok tt w
must_be_new (err e w) = err e w

unfoldable pub assert_unique : Outside → FrontingLink → M (Unit {0})
assert_unique o l w = must_be_new (Links.get o l.source_slug l.target_slug w)

unfoldable pub validate : Outside → Option FrontingLink → M (Unit {0})
unfolding check_link assert_unique
validate o none = raise invalid_request
validate o (some l) = do
  check_link o l
  assert_unique o l
  assert_no_cycle o l.source_slug l.target_slug

-- A scope that the resource had and has no more.
abbrev pub lost : List String → List String → String → Bool
lost had has scope = contains had scope && not (contains has scope)

abbrev pub blocks : String → List String → List String → FrontingLink → Bool
blocks slug had has l =
    (l.source_slug == slug && any (λ m. lost had has m.source) l.scope_map)
    || (l.target_slug == slug && any (λ m. any (lost had has) m.targets) l.scope_map)

abbrev pub update_error : Resource → Resource → List FrontingLink → Option Error
update_error prev next links =
    if is_empty links
    then none
    else if not (same_kind prev.backend_kind next.backend_kind)
    then some invalid_request
    else if any (blocks prev.slug (scope_name_set prev.scopes) (scope_name_set next.scopes)) links
    then some invalid_request
    else none

unfoldable pub validate_resource_update : Outside → Resource → Resource → M (Unit {0})
validate_resource_update o prev next = do
  links ← Links.list_for_resource o prev.slug
  refuse_if (update_error prev next links)
