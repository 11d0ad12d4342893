-- ===== src/ResourceAdmin/Policies.antt =====
-- The lists of a resource's policy, in internal/services/resource_admin.go: who may exchange for it,
-- who may act as it, and where a connect flow may return to.
use text.Mathlib.Text.{starts_with}
use authserver.Common.{
  String, List, [], ◌∷◌, Option, none, some, if◌then◌else◌, ◌==◌, ◌||◌, ◌++◌, not, contains,
}
use authserver.Domain.Errors.{Error, invalid_request}
use authserver.Domain.Resources.{Resource, Policy, ResourceUri, is_mint}
use authserver.Store.Resources
use authserver.Store.Monad.{M, ◌>>=◌, ◌>>◌, pure, require, refuse_if, resource_policy_changed}
use authserver.Token.Env.{audited}
use authserver.ResourceAdmin.Service.{ResourceAdminService, outside, known_client}

-- The list with a value added or taken out, where that changes it.
abbrev pub with_value : String → List String → Option (List String)
with_value v xs = if contains xs v then none else some (xs ++ (v ∷ []))

abbrev pub remove_first : String → List String → List String
remove_first v [] = []
remove_first v (x ∷ xs) = if x == v then xs else x ∷ remove_first v xs

abbrev pub without_value : String → List String → Option (List String)
without_value v xs = if contains xs v then some (remove_first v xs) else none

abbrev pub with_allowed_clients : Policy → List String → Policy
with_allowed_clients p xs = record p { exchange = record { allowed_client_ids = xs } }

abbrev pub with_runtime_clients : Policy → List String → Policy
with_runtime_clients p xs = record p { runtime = record { client_ids = xs } }

abbrev pub with_return_urls : Policy → List String → Policy
with_return_urls p xs = record p { connect = record { allowed_return_urls = xs } }

abbrev return_uri_error : Option ResourceUri → Option Error
return_uri_error none = some invalid_request
return_uri_error (some u) =
    if not u.is_abs
    then some invalid_request
    else if not (u.scheme == "http" || u.scheme == "https")
    then some invalid_request
    else if u.host == ""
    then some invalid_request
    else none

unfoldable pub validate_return_url : (String → Option ResourceUri) → String → Option Error
validate_return_url parse url =
    if url == ""
    then some invalid_request
    else if starts_with url "http://localhost:"
        || starts_with url "http://127.0.0.1:"
        || starts_with url "https://localhost:"
        || starts_with url "https://127.0.0.1:"
    then none
    else return_uri_error (parse url)

module _ (s : ResourceAdminService) where
  -- The row is written where the list changed.
  abbrev pub save :
      String
      → Resource
      → String
      → (List String → Policy)
      → List String
      → Option (List String)
      → M (List String)
  save action r v set old none = pure old
  save action r v set old (some new) = do
    Resources.replace s.env.lower (outside s)
        (record r { policy = set new; updated_at = (outside s).now })
    audited s.env (resource_policy_changed action r.slug v)
    pure new

  unfoldable pub add_allowed_client : String → String → M (List String)
  add_allowed_client slug id = do
    require (not (id == "")) invalid_request
    known_client s id
    r ← Resources.get_by_slug (outside s) slug
    save "exchange_allowed_client_added" r id (with_allowed_clients r.policy)
        r.policy.exchange.allowed_client_ids (with_value id r.policy.exchange.allowed_client_ids)

  unfoldable pub remove_allowed_client : String → String → M (List String)
  remove_allowed_client slug id = do
    require (not (id == "")) invalid_request
    r ← Resources.get_by_slug (outside s) slug
    save "exchange_allowed_client_removed" r id (with_allowed_clients r.policy)
        r.policy.exchange.allowed_client_ids (without_value id r.policy.exchange.allowed_client_ids)

  unfoldable pub list_allowed_clients : String → M (List String)
  list_allowed_clients slug = do
    r ← Resources.get_by_slug (outside s) slug
    pure r.policy.exchange.allowed_client_ids

  unfoldable pub add_allowed_return_url : String → String → M (List String)
  add_allowed_return_url slug url = do
    refuse_if (validate_return_url s.parse_uri url)
    r ← Resources.get_by_slug (outside s) slug
    require (not (is_mint r)) invalid_request
    save "connect_allowed_return_url_added" r url (with_return_urls r.policy)
        r.policy.connect.allowed_return_urls (with_value url r.policy.connect.allowed_return_urls)

  unfoldable pub remove_allowed_return_url : String → String → M (List String)
  remove_allowed_return_url slug url = do
    require (not (url == "")) invalid_request
    r ← Resources.get_by_slug (outside s) slug
    require (not (is_mint r)) invalid_request
    save "connect_allowed_return_url_removed" r url (with_return_urls r.policy)
        r.policy.connect.allowed_return_urls
        (without_value url r.policy.connect.allowed_return_urls)

  unfoldable pub list_allowed_return_urls : String → M (List String)
  list_allowed_return_urls slug = do
    r ← Resources.get_by_slug (outside s) slug
    require (not (is_mint r)) invalid_request
    pure r.policy.connect.allowed_return_urls

  unfoldable pub add_runtime_client_id : String → String → M (List String)
  add_runtime_client_id slug id = do
    require (not (id == "")) invalid_request
    known_client s id
    r ← Resources.get_by_slug (outside s) slug
    save "runtime_client_added" r id (with_runtime_clients r.policy) r.policy.runtime.client_ids
        (with_value id r.policy.runtime.client_ids)

  unfoldable pub remove_runtime_client_id : String → String → M (List String)
  remove_runtime_client_id slug id = do
    require (not (id == "")) invalid_request
    r ← Resources.get_by_slug (outside s) slug
    save "runtime_client_removed" r id (with_runtime_clients r.policy) r.policy.runtime.client_ids
        (without_value id r.policy.runtime.client_ids)

  unfoldable pub list_runtime_client_ids : String → M (List String)
  list_runtime_client_ids slug = do
    r ← Resources.get_by_slug (outside s) slug
    pure r.policy.runtime.client_ids
