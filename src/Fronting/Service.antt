-- ===== src/Fronting/Service.antt =====
-- The operations of `FrontingService` in internal/services/fronting.go.
use Prim.Native.String
use authserver.Common.{
  String, Bool, true, false, List, [], ◌∷◌, Option, none, some, if◌then◌else◌, ◌==◌, sort_strings,
  is_empty,
}
use authserver.Domain.Errors.{invalid_request}
use authserver.Domain.FrontingLinks.{ScopeMap, FrontingLink, source_scopes}
use authserver.Store.Links
use authserver.Store.Links.{FrontingLinkFilter}
use authserver.Store.Monad.{
  Outside, M, ◌>>=◌, ◌>>◌, pure, raise, record_event, AuditEvent, fronting_link_created,
  fronting_link_patched, fronting_link_deleted,
}
use authserver.Fronting.Rules.{validate, validate_for_patch}

pub record FrontingService : Type 0 where
  pub outside : Outside
  pub has_audit : Bool

abbrev pub audited : Bool → AuditEvent → M (Unit {0})
audited true ev = record_event ev
audited false ev = pure tt

abbrev joined : String → List String → String
joined sep [] = ""
joined sep (x ∷ []) = x
joined sep (x ∷ y ∷ r) = String.◌++◌ x (String.◌++◌ sep (joined sep (y ∷ r)))

abbrev targets_of : String → ScopeMap → List String
targets_of src [] = []
targets_of src (m ∷ rest) = if m.source == src then m.targets else targets_of src rest

abbrev parts : ScopeMap → List String → List String
parts m [] = []
parts m (src ∷ srcs) =
    String.◌++◌ src (String.◌++◌ "->" (joined "+" (sort_strings (targets_of src m)))) ∷ parts m srcs

unfoldable pub summarize_scope_map : ScopeMap → String
summarize_scope_map m = if is_empty m then "{}" else joined "," (parts m (source_scopes m))

unfoldable pub actor_id_or_admin : String → String
actor_id_or_admin actor = if actor == "" then "admin" else actor

module _ (f : FrontingService) where
  open f use {outside, has_audit}

  unfoldable pub get : String → String → M FrontingLink
  get s t = Links.get outside s t

  unfoldable pub list : FrontingLinkFilter → M (List FrontingLink)
  list filter = Links.list outside filter

  unfoldable pub create_valid : FrontingLink → String → M (Unit {0})
  create_valid l actor = do
    validate outside (some l)
    Links.create outside (record l { created_at = outside.now; created_by = actor })
    audited has_audit (
        fronting_link_created (actor_id_or_admin actor) l.source_slug l.target_slug
          (summarize_scope_map l.scope_map))

  unfoldable pub create : Option FrontingLink → String → M (Unit {0})
  unfolding create_valid
  create none actor = raise invalid_request
  create (some l) actor = create_valid l actor

  abbrev pub patch_to : FrontingLink → String → M FrontingLink
  patch_to candidate actor = do
    validate_for_patch outside (some candidate)
    Links.replace outside candidate
    audited has_audit (
        fronting_link_patched (actor_id_or_admin actor) candidate.source_slug candidate.target_slug
          (summarize_scope_map candidate.scope_map))
    pure candidate

  abbrev pub patch_existing : FrontingLink → Option ScopeMap → String → M FrontingLink
  patch_existing existing none actor = pure existing
  patch_existing existing (some m) actor = patch_to (record existing { scope_map = m }) actor

  -- The patch is a scope map, or none.
  unfoldable pub patch : String → String → Option ScopeMap → String → M FrontingLink
  patch s t change actor = do existing ← Links.get outside s t; patch_existing existing change actor

  unfoldable pub delete : String → String → String → M (Unit {0})
  delete s t actor = do
    Links.delete outside s t
    audited has_audit (fronting_link_deleted (actor_id_or_admin actor) s t)

  abbrev pub audit_all : String → List FrontingLink → M (Unit {0})
  audit_all actor [] = pure tt
  audit_all actor (l ∷ ls) = do
    audited has_audit (fronting_link_deleted (actor_id_or_admin actor) l.source_slug l.target_slug)
    audit_all actor ls

  abbrev pub delete_dependents : String → String → List FrontingLink → M (List FrontingLink)
  delete_dependents slug actor [] = pure []
  delete_dependents slug actor (l ∷ ls) = do
    Links.delete_for_resource outside slug
    audit_all actor (l ∷ ls)
    pure (l ∷ ls)

  unfoldable pub cascade_delete_for_resource : String → String → M (List FrontingLink)
  cascade_delete_for_resource slug actor = do
    dependents ← Links.list_for_resource outside slug
    delete_dependents slug actor dependents
