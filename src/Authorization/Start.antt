-- ===== src/Authorization/Start.antt =====
-- internal/services/authorize.go: the start and the end of an authorization. Client metadata
-- documents and the parser of net/url are parameters.
use text.Mathlib.Text.{starts_with}
use authserver.Common.{
  String, ℕ, ◌+◌, ◌*◌, Bool, true, false, List, [], ◌∷◌, ◌++◌, Option, none, some, if◌then◌else◌,
  ◌==◌, ◌&&◌, ◌||◌, not, contains, all, is_empty, length, leb,
}
use authserver.Domain.Errors.{
  invalid_grant, client_suspended, invalid_redirect_uri, invalid_pkce, invalid_client,
  invalid_scope, consent_resource_not_mint, session_expired,
}
use authserver.Domain.Clients.{Client, is_active}
use authserver.Domain.Redirects.{RedirectUrl, has_redirect_uri}
use authserver.Domain.Entities.{Session, session_is_expired}
use authserver.Domain.Resources.{Resource, is_mint}
use authserver.Domain.Consents.{ConsentGrant, grant_is_revoked, covers_scopes}
use authserver.Pkce.{is_valid_challenge_method}
use authserver.Scope
use authserver.Scope.{Set, fields, join, intersect, to_string, is_subset}
use authserver.Store.Consents
use authserver.Store.Sessions
use authserver.Store.Monad.{
  Outside, M, ok, ◌>>=◌, ◌>>◌, pure, raise, require, reach, draw, get_client, get_cimd_client,
  oauth_config,
}
use authserver.Token.Env.{Env}
use authserver.Authorization.Registry
use authserver.Authorization.Registry.{ResourceInfo}

pub record AuthorizeService : Type 0 where
  pub env : Env
  pub parse_redirect : String → Option RedirectUrl
  -- `GetByCIMDURL`, and `VerifyCIMD` where it is wired.
  pub by_cimd_url : String → Option Client
  pub verify_cimd : Option (String → Option Client)
  pub require_scope : Bool

pub record AuthorizeRequest : Type 0 where
  pub client_id : String
  pub redirect_uri : String
  pub response_type : String
  pub scope : String
  pub state : String
  pub resource : String
  pub code_challenge : String
  pub code_challenge_method : String
  pub user_id : String

pub record AuthorizeResult : Type 0 where
  pub session : Session
  pub login_required : Bool
  pub consent_required : Bool

pub record CompleteAuthResult : Type 0 where
  pub redirect_uri : String
  pub code : String
  pub state : String

-- Ten minutes.
abbrev pub auth_code_ttl : ℕ
auth_code_ttl = 10 * 60 * 1000000000

abbrev pub max_no_ceiling_clients_logged : ℕ
max_no_ceiling_clients_logged = 1024

abbrev pub nonempty : String → Bool
nonempty s = not (s == "")

-- The catalog of the first resource with this URI.
unfoldable pub allowed_scopes : String → List ResourceInfo → List String
allowed_scopes uri [] = []
allowed_scopes uri (r ∷ rs) = if r.uri == uri then r.scopes else allowed_scopes uri rs

-- The names that are not there yet, in their order.
abbrev pub gather : List String → List String → List String
gather seen [] = seen
gather seen (x ∷ xs) = gather (if contains seen x then seen else seen ++ (x ∷ [])) xs

abbrev gather_all : List String → List ResourceInfo → List String
gather_all seen [] = seen
gather_all seen (r ∷ rs) = gather_all (gather seen r.scopes) rs

unfoldable pub default_scopes : String → List ResourceInfo → List String
default_scopes uri rs = if uri == "" then gather_all [] rs else gather [] (allowed_scopes uri rs)

-- What a request has established before its session is written.
pub record Admitted : Type 0 where
  pub client : Client
  pub target : Option Resource
  pub scope : String
  pub consented : Bool

module _ (a : AuthorizeService) where
  abbrev pub outside : Outside
  outside = a.env.outside

  abbrev registered : Option (String → Option Client) → String → M Client
  registered none url = raise invalid_client
  registered (some verify) url = elim (verify url) [ none ↦ raise invalid_client | some c ↦ pure c ]

  abbrev from_url : String → M Client
  from_url url = elim (outside.fails get_cimd_client) [
    | true ↦ raise invalid_client
    | false ↦ elim (a.by_cimd_url url) [ some c ↦ pure c | none ↦ registered a.verify_cimd url ]
  ]

  abbrev is_url : String → Bool
  is_url s = starts_with s "http://" || starts_with s "https://"

  abbrev or_from_url : String → Option Client → M Client
  or_from_url id (some c) = pure c
  or_from_url id none = if nonempty id && is_url id then from_url id else raise invalid_client

  unfoldable pub lookup_client : String → M Client
  lookup_client id = or_from_url id (if outside.fails get_client then none else a.env.client id)

  abbrev pub mint_only : Resource → M (Option Resource)
  mint_only r = do require (is_mint r) consent_resource_not_mint; pure (some r)

  abbrev pub target_of : Bool → String → M (Option Resource)
  target_of true s = pure none
  target_of false s = do r ← Registry.resolve outside s; mint_only r

  abbrev pub resolve_target : String → M (Option Resource)
  resolve_target s = target_of (s == "") s

  unfoldable pub collect_default_scopes : String → M String
  collect_default_scopes uri = do
    infos ← Registry.list outside
    pure (join (default_scopes uri infos))

  unfoldable pub validate_scopes : String → String → M (Unit {0})
  validate_scopes scope uri = do
    infos ← Registry.list outside
    require (not (is_empty (allowed_scopes uri infos))) invalid_scope
    require (all (contains (allowed_scopes uri infos)) (fields scope)) invalid_scope

  -- A client is warned of once, and no more clients than the bound.
  unfoldable pub should_log_no_ceiling : String → M Bool
  should_log_no_ceiling id w =
      if contains w.ceiling_logged id
      then ok false w
      else if leb max_no_ceiling_clients_logged (length w.ceiling_logged)
      then ok false w
      else ok true (record w { ceiling_logged = id ∷ w.ceiling_logged })

  abbrev pub narrowed : Set → String → String
  narrowed ceiling catalog =
      to_string
        (if is_empty ceiling then Scope.parse catalog else intersect (Scope.parse catalog) ceiling)

  abbrev pub default_scope : Set → String → M String
  default_scope ceiling uri = do
    reach outside oauth_config
    require (not a.require_scope) invalid_scope
    catalog ← collect_default_scopes uri
    require (nonempty (narrowed ceiling catalog)) invalid_scope
    pure (narrowed ceiling catalog)

  abbrev pub scope_or_default : Bool → Set → String → String → M String
  scope_or_default true ceiling uri scope = default_scope ceiling uri
  scope_or_default false ceiling uri scope = pure scope

  -- The scope of the request, or the default where it has none.
  unfoldable pub proposed_scope : Set → String → String → M String
  proposed_scope ceiling uri scope = scope_or_default (scope == "") ceiling uri scope

  abbrev pub warn_no_ceiling : Bool → String → M (Unit {0})
  warn_no_ceiling true id = pure tt
  warn_no_ceiling false id = do logged ← should_log_no_ceiling id; pure tt

  abbrev pub ceiling_or_warning : Bool → String → Set → String → M (Unit {0})
  ceiling_or_warning false id ceiling scope =
      require (is_subset (Scope.parse scope) ceiling) invalid_scope
  ceiling_or_warning true id ceiling scope = warn_no_ceiling (scope == "") id

  unfoldable pub check_ceiling : String → Set → String → M (Unit {0})
  check_ceiling id ceiling scope = ceiling_or_warning (is_empty ceiling) id ceiling scope

  abbrev pub validate_if : Bool → String → String → M (Unit {0})
  validate_if true scope uri = validate_scopes scope uri
  validate_if false scope uri = pure tt

  unfoldable pub check_catalog : String → String → M (Unit {0})
  check_catalog scope uri = validate_if (nonempty scope && nonempty uri) scope uri

  abbrev pub is_covered : String → Option ConsentGrant → Bool
  is_covered scope none = false
  is_covered scope (some g) = not (grant_is_revoked g) && covers_scopes g (fields scope)

  abbrev pub covered_for : String → String → String → Resource → M Bool
  covered_for user client scope r = do
    g ← Consents.get outside user client r.id
    pure (is_covered scope g)

  abbrev pub consent_of : Bool → String → String → String → Resource → M Bool
  consent_of true user client scope r = pure false
  consent_of false user client scope r = covered_for user client scope r

  -- Whether the user has agreed to the scope before.
  unfoldable pub has_consent : String → String → String → Option Resource → M Bool
  has_consent user client scope none = pure false
  has_consent user client scope (some r) = consent_of (user == "") user client scope r

  -- The request is kept with the canonical URI of its resource.
  abbrev pub uri_of : Option Resource → String
  uri_of none = ""
  uri_of (some r) = r.uri

  abbrev pub new_session : AuthorizeRequest → Client → String → String → String → Session
  new_session req c uri scope id = record {
    id = id;
    client_id = c.id;
    user_id = req.user_id;
    redirect_uri = req.redirect_uri;
    scope = scope;
    resource = uri;
    state = req.state;
    code_hash = none;
    code_challenge = req.code_challenge;
    code_challenge_method = req.code_challenge_method;
    expires_at = outside.now + auth_code_ttl;
    consumed_at = none;
    created_at = outside.now;
  }

  abbrev pub settle : AuthorizeRequest → Client → Option Resource → String → M Admitted
  settle req c target scope = do
    check_ceiling req.client_id (Scope.parse c.scope) scope
    check_catalog scope (uri_of target)
    consented ← has_consent req.user_id c.id scope target
    pure (record { client = c; target = target; scope = scope; consented = consented })

  abbrev pub propose : AuthorizeRequest → Client → Option Resource → M Admitted
  propose req c target = do
    scope ← proposed_scope (Scope.parse c.scope) (uri_of target) req.scope
    settle req c target scope

  abbrev pub aim : AuthorizeRequest → Client → M Admitted
  aim req c = do
    require (is_active c) client_suspended
    require (has_redirect_uri a.parse_redirect c.redirect_uris req.redirect_uri)
        invalid_redirect_uri
    require (nonempty req.code_challenge) invalid_pkce
    require (is_valid_challenge_method req.code_challenge_method) invalid_pkce
    target ← resolve_target req.resource
    propose req c target

  abbrev pub look_up : AuthorizeRequest → M Admitted
  look_up req = do c ← lookup_client req.client_id; aim req c

  unfoldable pub check_request : AuthorizeRequest → M Admitted
  check_request req = do require (req.response_type == "code") invalid_grant; look_up req

  unfoldable pub open_session : AuthorizeRequest → Admitted → M AuthorizeResult
  open_session req k = do
    id ← draw outside
    Sessions.create outside (new_session req k.client (uri_of k.target) k.scope id)
    pure (record {
      session = new_session req k.client (uri_of k.target) k.scope id;
      login_required = req.user_id == "";
      consent_required = not k.consented;
    })

  unfoldable pub start_authorization : AuthorizeRequest → M AuthorizeResult
  start_authorization req = do k ← check_request req; open_session req k

  abbrev pub complete_for : String → Session → M CompleteAuthResult
  complete_for id s = do
    require (not (session_is_expired outside.now s)) session_expired
    code ← draw outside
    Sessions.update_code_hash_and_scope outside id (a.env.hash code) s.scope
    pure (record { redirect_uri = s.redirect_uri; code = code; state = s.state })

  unfoldable pub complete_authorization : String → M CompleteAuthResult
  complete_authorization id = do s ← Sessions.get_by_id outside id; complete_for id s
