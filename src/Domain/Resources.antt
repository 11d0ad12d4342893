-- ===== src/Domain/Resources.antt =====
-- internal/domain/resource: resources with their scopes and policies (entity.go, resource.go). The
-- parser of net/url and the case folding of strings are parameters.
use authserver.Common.{
  String, ℕ, zero, suc, code, Bool, true, false, List, [], ◌∷◌, Option, none, some, ◌==◌, ◌&&◌,
  ◌||◌, not, if◌then◌else◌, leb, eqb, contains, add_key,
}
use authserver.Domain.Errors.{Error, invalid_slug, internal}

pub data BackendKind : Type 0 where
  mint broker : BackendKind
  other_kind : String → BackendKind

pub record Scope : Type 0 where
  pub name : String
  pub description : String
  pub upstream : String

pub record ExchangePolicy : Type 0 where
  pub allowed_client_ids : List String

pub record RuntimePolicy : Type 0 where
  pub client_ids : List String

pub record ConnectPolicy : Type 0 where
  pub allowed_return_urls : List String

pub record Policy : Type 0 where
  pub exchange : ExchangePolicy
  pub runtime : RuntimePolicy
  pub connect : ConnectPolicy

pub record Resource : Type 0 where
  pub id : String
  pub slug : String
  pub display_name : String
  pub uri : String
  pub backend_kind : BackendKind
  pub broker_provider_id : String
  pub scopes : List Scope
  pub policy : Policy
  pub created_at : ℕ
  pub updated_at : ℕ

abbrev pub kind_is_mint : BackendKind → Bool
kind_is_mint mint = true
kind_is_mint _ = false

abbrev pub kind_is_broker : BackendKind → Bool
kind_is_broker broker = true
kind_is_broker _ = false

abbrev pub same_kind : BackendKind → BackendKind → Bool
same_kind mint mint = true
same_kind broker broker = true
same_kind (other_kind a) (other_kind b) = a == b
same_kind _ _ = false

unfoldable pub is_mint : Resource → Bool
is_mint r = kind_is_mint r.backend_kind

unfoldable pub is_broker : Resource → Bool
is_broker r = kind_is_broker r.backend_kind

-- `scopeNameSet` of internal/services/fronting.go: a map used as a set is the list of its keys.
pub names_from : List String → List Scope → List String
names_from out [] = out
names_from out (s ∷ rest) = names_from (add_key out s.name) rest

unfoldable pub scope_name_set : List Scope → List String
unfolding names_from
scope_name_set scopes = names_from [] scopes

slug_start : ℕ → Bool
slug_start c = (leb 97 c && leb c 122) || (leb 48 c && leb c 57)

slug_rest : ℕ → String → Bool
unfolding slug_start
slug_rest n String.[] = true
slug_rest zero (String.◌∷◌ c s) = false
slug_rest (suc n) (String.◌∷◌ c s) = (slug_start (code c) || eqb (code c) 45) && slug_rest n s

-- `slugPattern`: ^[a-z0-9][a-z0-9-]{0,63}$
unfoldable pub matches_slug : String → Bool
unfolding slug_start slug_rest
matches_slug String.[] = false
matches_slug (String.◌∷◌ c s) = slug_start (code c) && slug_rest 63 s

validate_names : List String → List Scope → Option Error
validate_names seen [] = none
validate_names seen (s ∷ rest) =
    if s.name == ""
    then some internal
    else if contains seen s.name
    then some internal
    else validate_names (add_key seen s.name) rest

unfoldable pub validate_resource_scopes : List Scope → Option Error
unfolding validate_names
validate_resource_scopes scopes = validate_names [] scopes

-- What is read of the parsed URI.
pub record ResourceUri : Type 0 where
  pub is_abs : Bool
  pub scheme : String
  pub host : String

validate_parsed : Option ResourceUri → Option Error
validate_parsed none = some internal
validate_parsed (some u) =
    if not u.is_abs
    then some internal
    else if not (u.scheme == "http" || u.scheme == "https")
    then some internal
    else if u.host == ""
    then some internal
    else none

validate_backend : BackendKind → String → Option Error
validate_backend mint provider = if not (provider == "") then some internal else none
validate_backend broker provider = if provider == "" then some internal else none
validate_backend (other_kind k) provider = some internal

-- What follows a test that found no error.
abbrev pub and_then : Option Error → Option Error → Option Error
and_then (some e) rest = some e
and_then none rest = rest

module _ (parse : String → Option ResourceUri) where
  unfoldable pub validate_resource_uri : String → Option Error
  unfolding validate_parsed
  validate_resource_uri uri = if uri == "" then none else validate_parsed (parse uri)

  unfoldable pub validate_resource : Resource → Option Error
  unfolding validate_resource_uri validate_resource_scopes validate_backend matches_slug
  validate_resource r =
      if r.slug == ""
      then some invalid_slug
      else if not (matches_slug r.slug)
      then some invalid_slug
      else and_then (validate_backend r.backend_kind r.broker_provider_id)
          (and_then (validate_resource_uri r.uri) (validate_resource_scopes r.scopes))

unfoldable pub normalize_slug : (String → String) → String → Option String
unfolding matches_slug
normalize_slug to_lower s = if not (matches_slug (to_lower s)) then none else some (to_lower s)
