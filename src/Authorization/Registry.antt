-- ===== src/Authorization/Registry.antt =====
-- internal/services/resource_registry.go: how the services look resources up.
use authserver.Common.{String, List, [], ◌∷◌, if◌then◌else◌, ◌==◌}
use authserver.Domain.Errors.{resource_not_found, ambiguous_resource}
use authserver.Domain.Resources.{Scope, Resource}
use authserver.Store.Resources
use authserver.Store.Monad.{Outside, M, ◌>>=◌, pure, raise}

-- `ResourceInfo` of internal/services/authorize.go; a description is kept where there is one. The
-- audience is not set by the registry.
pub record ResourceInfo : Type 0 where
  pub uri : String
  pub scopes : List String
  pub scope_descriptions : List (String × String)

abbrev pub only_one : List Resource → M Resource
only_one [] = raise resource_not_found
only_one (r ∷ []) = pure r
only_one (r ∷ x ∷ rest) = raise ambiguous_resource

unfoldable pub resolve : Outside → String → M Resource
resolve o s = do rows ← Resources.resolve o s; only_one rows

abbrev pub scope_names : List Scope → List String
scope_names [] = []
scope_names (s ∷ ss) = s.name ∷ scope_names ss

abbrev descriptions : List Scope → List (String × String)
descriptions [] = []
descriptions (s ∷ ss) =
    if s.description == "" then descriptions ss else (s.name, s.description) ∷ descriptions ss

unfoldable pub resource_to_info : Resource → ResourceInfo
resource_to_info r = record {
  uri = r.uri;
  scopes = scope_names r.scopes;
  scope_descriptions = descriptions r.scopes;
}

abbrev pub infos : List Resource → List ResourceInfo
infos [] = []
infos (r ∷ rs) = resource_to_info r ∷ infos rs

unfoldable pub list : Outside → M (List ResourceInfo)
list o = do rows ← Resources.list o; pure (infos rows)

unfoldable pub list_scopes : Outside → String → M (List Scope)
list_scopes o id = do r ← Resources.get_by_id o id; pure r.scopes
