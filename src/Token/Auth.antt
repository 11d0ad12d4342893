-- ===== src/Token/Auth.antt =====
-- `authenticateClient`, `validateRequestedResource` and `resourceIdentityEqual` of
-- internal/services/token.go, and its two looks at the subject of a grant.
use authserver.Common.{
  String, Bool, false, Option, none, some, ◌==◌, ◌&&◌, ◌||◌, not, if◌then◌else◌,
}
use authserver.Domain.Errors.{
  Error, internal, invalid_client, client_suspended, invalid_target, invalid_grant,
}
use authserver.Domain.Clients.{Client, is_active, is_public}
use authserver.Domain.Users.{user_is_active}
use authserver.Store.Monad.{refuse_if, M, ◌>>◌, pure, raise, require}
use authserver.Token.Env.{Env, Url, Target, UserLookup, found, not_found, nil_user, failed}

-- A confidential client shows a secret that matches; a public one shows none.
unfoldable pub secret_fits : Env → Client → String → Bool
secret_fits e c secret =
    if is_public c
    then secret == ""
    else not (secret == "") && e.secret_matches c.secret_hash secret

unfoldable pub authenticate_found : Env → String → Option Client → M Client
authenticate_found e secret none = raise invalid_client
authenticate_found e secret (some c) = do
  require (is_active c) client_suspended
  require (secret_fits e c secret) invalid_client
  pure c

unfoldable pub authenticate_client : Env → String → String → M Client
unfolding authenticate_found
authenticate_client e client_id secret = authenticate_found e secret (e.client client_id)

abbrev pub normal : Env → Url → Url
normal e u = record u { scheme = e.lower u.scheme; host = e.lower u.host }

unfoldable pub same_url : Env → Option Url → Option Url → Bool
same_url e (some a) (some b) = e.print_url (normal e a) == e.print_url (normal e b)
same_url e _ _ = false

unfoldable pub resource_identity_equal : Env → String → String → Bool
unfolding same_url
resource_identity_equal e a b = same_url e (e.parse_url a) (e.parse_url b)

-- Both resolve, to resources of one identity.
unfoldable pub same_resource : Option Target → Option Target → Bool
same_resource (some r) (some a) = a.id == r.id
same_resource _ _ = false

unfoldable pub registered_as : Env → String → String → Bool
registered_as e requested authorized = elim e.resolve [
  | none ↦ false
  | some resolve ↦ not (authorized == "") && same_resource (resolve requested) (resolve authorized)
]

-- A request may repeat the granted resource, in another spelling too, and name no other.
unfoldable pub resource_fits : Env → String → String → Bool
unfolding registered_as same_resource
resource_fits e requested authorized =
    requested == ""
    || requested == authorized
    || resource_identity_equal e requested authorized
    || registered_as e requested authorized

unfoldable pub validate_requested_resource : Env → String → String → M (Unit {0})
validate_requested_resource e requested authorized =
    require (resource_fits e requested authorized) invalid_target

abbrev pub subject_error : UserLookup → Option Error
subject_error (found u) = if user_is_active u then none else some invalid_grant
subject_error not_found = some invalid_grant
subject_error nil_user = some internal
subject_error failed = some internal

-- The subject check of the code grant: a store that fails is a server error.
unfoldable pub check_subject : Env → String → M (Unit {0})
check_subject e user_id = elim e.users [
  | none ↦ pure tt
  | some lookup ↦ if user_id == "" then pure tt else refuse_if (subject_error (lookup user_id))
]

abbrev pub is_live : UserLookup → Bool
is_live (found u) = user_is_active u
is_live _ = false

-- The subject check of the refresh grant: whatever is wrong, the grant is invalid.
unfoldable pub check_subject_refresh : Env → String → M (Unit {0})
check_subject_refresh e user_id = elim e.users [
  | none ↦ pure tt
  | some lookup ↦
      if user_id == "" then pure tt else require (is_live (lookup user_id)) invalid_grant
]
