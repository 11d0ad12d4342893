-- ===== src/Domain/FrontingLinks.antt =====
-- internal/domain/resource/fronting_link.go: fronting links and their scope maps. A scope map is the
-- list of its entries, one for each key; nothing but `SourceScopes` and `TargetScopes`, which sort,
-- shows an order.
use authserver.Common.{
  String, ℕ, Bool, false, List, [], ◌∷◌, Option, none, some, ◌==◌, ◌||◌, not, if◌then◌else◌,
  contains, add_key, sort_strings, is_empty,
}
use authserver.Domain.Errors.{Error, invalid_request}
use authserver.Domain.Resources.{matches_slug, and_then}

pub record Mapping : Type 0 where
  pub source : String
  pub targets : List String

abbrev pub ScopeMap : Type 0
ScopeMap = List Mapping

pub record FrontingLink : Type 0 where
  pub source_slug : String
  pub target_slug : String
  pub scope_map : ScopeMap
  pub created_at : ℕ
  pub created_by : String

keys : ScopeMap → List String
keys [] = []
keys (m ∷ rest) = m.source ∷ keys rest

unfoldable pub source_scopes : ScopeMap → List String
unfolding keys
source_scopes m = sort_strings (keys m)

unfoldable pub add_values : List String → List String → List String
add_values seen [] = seen
add_values seen (v ∷ vs) = add_values (add_key seen v) vs

unfoldable pub values_from : List String → ScopeMap → List String
unfolding add_values
values_from seen [] = seen
values_from seen (m ∷ rest) = values_from (add_values seen m.targets) rest

unfoldable pub target_scopes : ScopeMap → List String
unfolding values_from
target_scopes m = sort_strings (values_from [] m)

unfoldable pub references_source_scope : ScopeMap → String → Bool
references_source_scope [] scope = false
references_source_scope (m ∷ rest) scope = m.source == scope || references_source_scope rest scope

unfoldable pub references_target_scope : ScopeMap → String → Bool
references_target_scope [] scope = false
references_target_scope (m ∷ rest) scope =
    contains m.targets scope || references_target_scope rest scope

pub validate_targets : List String → List String → Option Error
validate_targets seen [] = none
validate_targets seen (t ∷ ts) =
    if t == ""
    then some invalid_request
    else if contains seen t
    then some invalid_request
    else validate_targets (add_key seen t) ts

validate_mapping : Mapping → Option Error
unfolding validate_targets
validate_mapping m =
    if m.source == ""
    then some invalid_request
    else if is_empty m.targets
    then some invalid_request
    else validate_targets [] m.targets

validate_mappings : ScopeMap → Option Error
unfolding validate_mapping
validate_mappings [] = none
validate_mappings (m ∷ rest) = and_then (validate_mapping m) (validate_mappings rest)

unfoldable pub validate_link : FrontingLink → Option Error
unfolding validate_mappings
validate_link l =
    if l.source_slug == ""
    then some invalid_request
    else if l.target_slug == ""
    then some invalid_request
    else if not (matches_slug l.source_slug)
    then some invalid_request
    else if not (matches_slug l.target_slug)
    then some invalid_request
    else if l.source_slug == l.target_slug
    then some invalid_request
    else if is_empty l.scope_map
    then some invalid_request
    else validate_mappings l.scope_map
