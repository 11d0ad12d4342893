-- ===== src/Authorization/Consent.antt =====
-- internal/services/consent.go: the consent of a user to a pending authorization.
use authserver.Common.{
  String, Bool, true, false, List, [], ◌∷◌, Option, none, some, if◌then◌else◌, ◌==◌, ◌&&◌, ◌||◌,
  not, contains, is_empty,
}
use authserver.Domain.Errors.{
  invalid_grant, invalid_scope, invalid_client, session_expired, consent_resource_not_mint,
  consent_required,
}
use authserver.Domain.Clients.{Client}
use authserver.Domain.Entities.{Session, session_is_expired}
use authserver.Domain.Resources.{Resource, is_mint}
use authserver.Domain.Resources
use authserver.Domain.Consents.{ConsentGrant}
use authserver.Scope
use authserver.Scope.{Set, fields, to_string, is_subset}
use authserver.Store.Consents
use authserver.Store.Sessions
use authserver.Store.Monad.{
  M, Run, ok, err, ◌>>=◌, ◌>>◌, pure, raise, require, reach, draw, get_client, consent_granted,
  consent_denied,
}
use authserver.Token.Env.{Env, audited}
use authserver.Token.Exchange.{in_transaction}
use authserver.Authorization.Registry

pub record ScopeInfo : Type 0 where
  pub name : String
  pub description : String

-- The name of the client is left out.
pub record ConsentView : Type 0 where
  pub session_id : String
  pub client_id : String
  pub resource : String
  pub resource_display_name : String
  pub resource_slug : String
  pub scopes : List ScopeInfo
  pub redirect_uri : String

pub record GrantConsentRequest : Type 0 where
  pub session_id : String
  pub user_id : String
  pub approved_scopes : List String

pub record GrantConsentResult : Type 0 where
  pub redirect_uri : String
  pub code : String
  pub state : String

wanted : List String → List Resources.Scope → List ScopeInfo
wanted requested [] = []
wanted requested (s ∷ rest) =
    if contains requested s.name
    then record { name = s.name; description = s.description } ∷ wanted requested rest
    else wanted requested rest

-- The entries of the catalog that are asked for, in its order.
unfoldable pub filter_scopes : List Resources.Scope → List String → List ScopeInfo
unfolding wanted
filter_scopes catalog requested = if is_empty requested then [] else wanted requested catalog

abbrev bare : List String → List ScopeInfo
bare [] = []
bare (name ∷ names) = record { name = name; description = "" } ∷ bare names

abbrev first_given : String → String → String → String
first_given a b c = if not (a == "") then a else if not (b == "") then b else c

-- Whether a user may act on a session: its owner, or any user on a session without one.
abbrev pub is_stranger : String → Session → Bool
is_stranger user s = user == "" || (not (s.user_id == "") && not (s.user_id == user))

module _ (e : Env) where
  abbrev found_client : Option Client → M Client
  found_client none = raise invalid_client
  found_client (some c) = pure c

  abbrev pub mint_target : Bool → String → M (Option Resource)
  mint_target true s = pure none
  mint_target false s = do
    r ← Registry.resolve e.outside s
    require (is_mint r) consent_resource_not_mint
    pure (some r)

  -- No resource, where the session names none; otherwise one that the server signs for itself.
  abbrev pub resolve_mint : String → M (Option Resource)
  resolve_mint s = mint_target (s == "") s

  abbrev view : Session → Client → Option Resource → ConsentView
  view s c none = record {
    session_id = s.id;
    client_id = c.id;
    resource = s.resource;
    resource_display_name = "";
    resource_slug = "";
    scopes = bare (fields s.scope);
    redirect_uri = s.redirect_uri;
  }
  view s c (some r) = record {
    session_id = s.id;
    client_id = c.id;
    resource = r.uri;
    resource_display_name = first_given r.display_name r.slug r.uri;
    resource_slug = r.slug;
    scopes = filter_scopes r.scopes (fields s.scope);
    redirect_uri = s.redirect_uri;
  }

  unfoldable pub get_pending_consent : String → M ConsentView
  get_pending_consent id = do
    s ← Sessions.get_by_id e.outside id
    require (not (session_is_expired e.now s)) session_expired
    reach e.outside get_client
    c ← found_client (e.client s.client_id)
    target ← resolve_mint s.resource
    pure (view s c target)

  abbrev pub new_grant : String → Session → Resource → List String → String → ConsentGrant
  new_grant user s r scopes id = record {
    id = id;
    user_id = user;
    client_id = s.client_id;
    resource_id = r.id;
    scopes = scopes;
    created_at = e.now;
    updated_at = e.now;
    revoked_at = none;
  }

  abbrev pub keep_grant : String → Session → Option Resource → List String → M (Unit {0})
  keep_grant user s none scopes = pure tt
  keep_grant user s (some r) scopes = do
    id ← draw e.outside
    Consents.upsert e.outside (new_grant user s r scopes id)

  abbrev pub persist_and_code :
      GrantConsentRequest → Session → Option Resource → String → String → M (Unit {0})
  persist_and_code req s target scope code = do
    keep_grant req.user_id s target (fields scope)
    Sessions.update_code_hash_and_scope e.outside req.session_id (e.hash code) scope

  abbrev pub approved : GrantConsentRequest → Set
  approved req = Scope.new req.approved_scopes

  abbrev pub consent_guards : GrantConsentRequest → Session → M Session
  consent_guards req s = do
    require (not (session_is_expired e.now s)) session_expired
    require (not (is_stranger req.user_id s)) invalid_grant
    require (not (is_empty (approved req))) invalid_scope
    require (is_subset (approved req) (Scope.parse s.scope)) invalid_scope
    pure s

  -- What a consent is held against.
  unfoldable pub check_consent : GrantConsentRequest → M Session
  check_consent req = do s ← Sessions.get_by_id e.outside req.session_id; consent_guards req s

  abbrev pub grant_with :
      GrantConsentRequest → Session → Option Resource → String → M GrantConsentResult
  grant_with req s target code = do
    in_transaction e (persist_and_code req s target (to_string (approved req)) code)
    audited e (consent_granted req.user_id s.client_id)
    pure (record { redirect_uri = s.redirect_uri; code = code; state = s.state })

  abbrev pub grant_to : GrantConsentRequest → Session → Option Resource → M GrantConsentResult
  grant_to req s target = do code ← draw e.outside; grant_with req s target code

  abbrev pub grant_for : GrantConsentRequest → Session → M GrantConsentResult
  grant_for req s = do target ← resolve_mint s.resource; grant_to req s target

  unfoldable pub grant_consent : GrantConsentRequest → M GrantConsentResult
  grant_consent req = do s ← check_consent req; grant_for req s

  -- A delete that fails is only logged.
  abbrev pub delete_quietly : Run (Unit {0}) → Run (Unit {0})
  delete_quietly (ok t w) = ok tt w
  delete_quietly (err x w) = ok tt w

  abbrev pub deny_owned : String → M (Unit {0})
  deny_owned id = do
    λ w. delete_quietly (Sessions.delete e.outside id w)
    audited e (consent_denied id)
    raise consent_required

  -- A session that is not found is denied without a check of its owner.
  abbrev pub deny_found : String → String → Run Session → Run (Unit {0})
  deny_found id user (ok s w) =
      (require (not (is_stranger user s)) invalid_grant >> deny_owned id) w
  deny_found id user (err x w) = deny_owned id w

  unfoldable pub deny_consent : String → String → M (Unit {0})
  deny_consent id user w = deny_found id user (Sessions.get_by_id e.outside id w)
