-- ===== src/ResourceAdmin/Service.antt =====
-- `Create`, `Patch` and `DeleteWithCascade` of internal/services/resource_admin.go. A resource is a
-- value here: what the source changes in place before it fails is not written.
use authserver.Common.{
  String, Bool, true, false, List, [], ◌∷◌, Option, none, some, if◌then◌else◌, ◌==◌, ◌&&◌, ◌||◌,
  not, contains, is_empty,
}
use authserver.Domain.Errors.{
  invalid_request, invalid_slug, resource_not_found, conflict, resource_has_fronting_links,
}
use authserver.Domain.Clients.{Client}
use authserver.Domain.Resources.{
  BackendKind, kind_is_broker, Scope, Policy, Resource, ResourceUri, is_mint, normalize_slug,
  validate_resource,
}
use authserver.Domain.FrontingLinks.{FrontingLink}
use authserver.Store.Links
use authserver.Store.Resources
use authserver.Store.Monad.{
  Outside, M, Run, ok, err, ◌>>=◌, ◌>>◌, pure, raise, require, refuse_if, reach, draw, get_client,
  get_provider, resource_created, resource_patched, resource_deleted,
}
use authserver.Token.Env.{Env, audited}
use authserver.Token.Exchange.{in_transaction}
use authserver.Fronting.Rules.{validate_resource_update}
use authserver.Fronting.Service.{FrontingService, cascade_delete_for_resource}

-- What the service is wired with; `parse_uri` is net/url.
pub record ResourceAdminService : Type 0 where
  pub env : Env
  pub has_fronting : Bool
  pub parse_uri : String → Option ResourceUri

abbrev pub fronting : ResourceAdminService → FrontingService
fronting s = record { outside = s.env.outside; has_audit = s.env.has_audit }

pub record ResourcePatch : Type 0 where
  pub slug : Option String
  pub uri : Option String
  pub backend_kind : Option BackendKind
  pub broker_provider_id : Option String
  pub display_name : Option String
  pub scopes : Option (List Scope)
  pub policy : Option Policy

abbrev pub given : {A : Type 0} → Option A → Bool
given none = false
given (some a) = true

abbrev pub or : {A : Type 0} → Option A → A → A
or none a = a
or (some b) a = b

abbrev pub when : Bool → M (Unit {0}) → M (Unit {0})
when true m = m
when false m = pure tt

module _ (s : ResourceAdminService) where
  abbrev pub outside : Outside
  outside = s.env.outside

  abbrev pub found_client : Option Client → M (Unit {0})
  found_client none = raise invalid_request
  found_client (some c) = pure tt

  -- A client that a policy names must be there.
  abbrev pub known_client : String → M (Unit {0})
  known_client id = reach outside get_client >> found_client (s.env.client id)

  unfoldable pub validate_client_id_list : List String → M (Unit {0})
  validate_client_id_list [] = pure tt
  validate_client_id_list (id ∷ ids) = do
    require (not (id == "")) invalid_request
    known_client id
    validate_client_id_list ids

  unfoldable pub validate_policy_clients : Policy → M (Unit {0})
  validate_policy_clients p = do
    validate_client_id_list p.exchange.allowed_client_ids
    validate_client_id_list p.runtime.client_ids

  abbrev pub known_provider : String → M (Unit {0})
  known_provider id w = if contains w.providers id then ok tt w else err invalid_request w

  unfoldable pub validate_broker_provider_ref : BackendKind → String → M (Unit {0})
  validate_broker_provider_ref kind id =
      when (kind_is_broker kind)
        (do require (not (id == "")) invalid_request; reach outside get_provider; known_provider id)

  abbrev pub available : String → Run Resource → Run (Unit {0})
  available exclude (ok r w) = if r.id == exclude then ok tt w else err conflict w
  available exclude (err resource_not_found w) = ok tt w
  available exclude (err e w) = err e w

  unfoldable pub assert_slug_available : String → String → M (Unit {0})
  assert_slug_available slug exclude w = available exclude (Resources.get_by_slug outside slug w)

  unfoldable pub strip_mint_connect_policy : Resource → Resource
  strip_mint_connect_policy r =
      if is_mint r
      then record r { policy = record r.policy { connect = record { allowed_return_urls = [] } } }
      else r

  abbrev pub canonical : Option String → M String
  canonical none = raise invalid_slug
  canonical (some slug) = pure slug

  abbrev pub born : Resource → String → Resource
  born r id = record r { id = id; created_at = outside.now; updated_at = outside.now }

  abbrev pub create_checked : Resource → M Resource
  create_checked r = do
    refuse_if (validate_resource s.parse_uri r)
    validate_broker_provider_ref r.backend_kind r.broker_provider_id
    validate_policy_clients r.policy
    assert_slug_available r.slug ""
    id ← draw outside
    Resources.create s.env.lower outside (born (strip_mint_connect_policy r) id)
    audited s.env (resource_created id r.slug)
    pure (born (strip_mint_connect_policy r) id)

  unfoldable pub create : Resource → M Resource
  create r = do
    require (r.id == "") invalid_request
    slug ← canonical (normalize_slug s.env.lower r.slug)
    create_checked (record r { slug = slug })

  abbrev pub patched_slug : Resource → Option String → M String
  patched_slug r none = pure r.slug
  patched_slug r (some raw) = canonical (normalize_slug s.env.lower raw)

  abbrev pub apply_patch : ResourcePatch → String → Resource → Resource
  apply_patch p slug r = record r {
    slug = slug;
    uri = or p.uri r.uri;
    backend_kind = or p.backend_kind r.backend_kind;
    broker_provider_id = or p.broker_provider_id r.broker_provider_id;
    display_name = or p.display_name r.display_name;
    scopes = or p.scopes r.scopes;
    policy = or p.policy r.policy;
  }

  abbrev pub touches_field : ResourcePatch → Bool
  touches_field p =
      given p.slug
      || given p.uri
      || given p.backend_kind
      || given p.broker_provider_id
      || given p.display_name
      || given p.scopes
      || given p.policy

  abbrev pub no_dependents : String → M (Unit {0})
  no_dependents slug = do
    deps ← Links.list_for_resource outside slug
    require (is_empty deps) invalid_request

  -- The hooks of the fronting service, on the row as it is stored.
  abbrev pub fronting_hooks : String → ResourcePatch → Resource → M (Unit {0})
  fronting_hooks id p r = do
    prev ← Resources.get_by_id outside id
    when (given p.slug && not (prev.slug == r.slug)) (no_dependents prev.slug)
    validate_resource_update outside prev r

  abbrev pub patched : Resource → Resource
  patched r = record (strip_mint_connect_policy r) { updated_at = outside.now }

  abbrev pub patch_checks : String → ResourcePatch → Resource → M (Unit {0})
  patch_checks id p r = do
    refuse_if (validate_resource s.parse_uri r)
    when (given p.backend_kind || given p.broker_provider_id)
        (validate_broker_provider_ref r.backend_kind r.broker_provider_id)
    when (given p.policy) (validate_policy_clients r.policy)
    when (given p.slug) (assert_slug_available r.slug r.id)

  abbrev pub patch_checked : String → ResourcePatch → Resource → M Resource
  patch_checked id p r = do
    patch_checks id p r
    when s.has_fronting (fronting_hooks id p r)
    Resources.replace s.env.lower outside (patched r)
    audited s.env (resource_patched r.id r.slug)
    pure (patched r)

  abbrev pub patch_touched : Bool → String → ResourcePatch → Resource → M Resource
  patch_touched true id p r = patch_checked id p r
  patch_touched false id p r = pure r

  unfoldable pub patch : String → ResourcePatch → M Resource
  patch id p = do
    require (not (id == "")) invalid_request
    r ← Resources.get_by_id outside id
    slug ← patched_slug r p.slug
    patch_touched (touches_field p) id p (apply_patch p slug r)

  abbrev pub dependents_of : Bool → String → M (List FrontingLink)
  dependents_of true slug = Links.list_for_resource outside slug
  dependents_of false slug = pure []

  abbrev pub cascade_links : String → M (Unit {0})
  cascade_links slug = do cascade_delete_for_resource (fronting s) slug "admin"; pure tt

  abbrev pub do_delete : String → String → Bool → List FrontingLink → M (Unit {0})
  do_delete id slug cascade deps = do
    when (cascade && not (is_empty deps) && s.has_fronting) (cascade_links slug)
    Resources.delete outside id

  abbrev pub delete_found : String → Bool → Resource → M (List FrontingLink)
  delete_found id cascade r = do
    deps ← dependents_of s.has_fronting r.slug
    require (is_empty deps || cascade) resource_has_fronting_links
    in_transaction s.env (do_delete id r.slug cascade deps)
    audited s.env (resource_deleted id r.slug)
    pure deps

  unfoldable pub delete_with_cascade : String → Bool → M (List FrontingLink)
  delete_with_cascade id cascade = do
    require (not (id == "")) invalid_request
    r ← Resources.get_by_id outside id
    delete_found id cascade r

  unfoldable pub delete : String → M (Unit {0})
  unfolding delete_with_cascade
  delete id = do delete_with_cascade id false; pure tt
