-- ===== src/Authorization/Tests.antt =====
-- An authorization and a consent at a concrete server, and the theorems at these runs.
use authserver.Common.{
  String, true, false, List, [], ◌∷◌, Option, none, some, ◌≡◌, refl, if◌then◌else◌, ◌==◌, ◌≢◌, inr,
  arith, eq_iff,
}
use authserver.Domain.Errors.{invalid_grant, invalid_scope}
use authserver.Domain.Entities.{Session}
use authserver.Domain.Resources.{Resource, mint}
use authserver.Domain.Redirects.{RedirectUrl}
use authserver.Store.Sessions
use authserver.Store.Monad.{World, ok, err, final}
use authserver.Token.Env.{Env}
use authserver.Token.Examples.{env, world, session, verifier}
use authserver.Token.Revoked.{succeeds}
use authserver.Authorization.Start.{
  AuthorizeService, AuthorizeRequest, AuthorizeResult, start_authorization, complete_authorization,
}
use authserver.Authorization.Consent.{
  GrantConsentRequest, GrantConsentResult, grant_consent, deny_consent, resolve_mint,
}
use authserver.Authorization.Granting.{Granted, Consented, grant_consent-Granted}
use authserver.Authorization.Refused.{grant_consent-atomic, deny_consent-final, stranger-refused}
use authserver.Authorization.Started.{Started, start_authorization-Started}

abbrev api : Resource
api = record {
  id = "1";
  slug = "api";
  display_name = "API";
  uri = "https://api";
  backend_kind = mint;
  broker_provider_id = "";
  scopes =
      record { name = "read"; description = ""; upstream = "" }
      ∷ record { name = "write"; description = ""; upstream = "" }
      ∷ [];
  policy = record {
    exchange = record { allowed_client_ids = [] };
    runtime = record { client_ids = [] };
    connect = record { allowed_return_urls = [] };
  };
  created_at = 0;
  updated_at = 0;
}

abbrev pending : World
pending = record world { sessions = record session { code_hash = none } ∷ []; resources = api ∷ [] }

abbrev approval : GrantConsentRequest
approval = record { session_id = "session"; user_id = "user"; approved_scopes = "read" ∷ [] }

abbrev granted : GrantConsentResult
granted = record { redirect_uri = "https://app/cb"; code = "r"; state = "" }

abbrev after : World
after = final (grant_consent env approval pending)

grants : grant_consent env approval pending ≡ ok granted after
unfolding grant_consent authserver.Authorization.Consent.check_consent
    authserver.Store.Sessions.get_by_id authserver.Domain.Entities.session_is_expired
    authserver.Scope.new authserver.Common.add_key authserver.Common.contains
    authserver.Scope.is_subset authserver.Scope.parse authserver.Scope.fields
    authserver.Authorization.Registry.resolve authserver.Store.Resources.resolve
    authserver.Domain.Resources.is_mint authserver.Token.Exchange.in_transaction
    authserver.Store.Consents.upsert authserver.Store.Sessions.update_code_hash_and_scope
    authserver.Token.Env.audited
grants = refl

-- Approving nothing is refused.
abbrev nothing : GrantConsentRequest
nothing = record { session_id = "session"; user_id = "user"; approved_scopes = [] }

refuses : grant_consent env nothing pending ≡ err invalid_scope pending
unfolding grant_consent authserver.Authorization.Consent.check_consent
    authserver.Store.Sessions.get_by_id authserver.Domain.Entities.session_is_expired
    authserver.Scope.new
refuses = refl

abbrev service : AuthorizeService
service = record {
  env = env;
  parse_redirect = λ s. none;
  by_cimd_url = λ s. none;
  verify_cimd = none;
  require_scope = false;
}

-- No scope is asked for: the client's scopes that the resource has are proposed.
abbrev request : AuthorizeRequest
request = record {
  client_id = "app";
  redirect_uri = "https://app/cb";
  response_type = "code";
  scope = "";
  state = "";
  resource = "api";
  code_challenge = verifier;
  code_challenge_method = "S256";
  user_id = "user";
}

abbrev started : World
started = final (start_authorization service request pending)

abbrev result : AuthorizeResult
result = record {
  session = record session {
    id = "r";
    scope = "read write";
    code_hash = none;
    expires_at = 1600000000000;
    created_at = 1000000000000;
  };
  login_required = false;
  consent_required = true;
}

starts : start_authorization service request pending ≡ ok result started
unfolding start_authorization authserver.Authorization.Start.open_session
    authserver.Store.Sessions.create authserver.Store.Resources.create
    authserver.Domain.Resources.normalize_slug authserver.Authorization.Start.check_request
    authserver.Authorization.Start.has_consent authserver.Scope.fields
    authserver.Domain.Consents.covers_scopes authserver.Common.contains
    authserver.Domain.Consents.grant_is_revoked authserver.Store.Consents.get
    authserver.Authorization.Start.check_catalog authserver.Authorization.Start.validate_scopes
    authserver.Authorization.Registry.resource_to_info authserver.Authorization.Start.allowed_scopes
    authserver.Store.Resources.list authserver.Authorization.Registry.list
    authserver.Store.Sorting.order_by authserver.Scope.parse authserver.Common.add_key
    authserver.Authorization.Start.check_ceiling
    authserver.Authorization.Start.should_log_no_ceiling authserver.Scope.is_subset
    authserver.Authorization.Start.proposed_scope authserver.Scope.intersect
    authserver.Scope.to_string authserver.Common.sort_strings authserver.Scope.join
    authserver.Authorization.Start.collect_default_scopes
    authserver.Authorization.Start.default_scopes authserver.Domain.Resources.is_mint
    authserver.Store.Resources.resolve authserver.Authorization.Registry.resolve
    authserver.Pkce.is_valid_challenge_method authserver.Domain.Redirects.has_redirect_uri
    authserver.Domain.Redirects.same_but_port authserver.Domain.Redirects.is_loopback
    authserver.Domain.Clients.is_active authserver.Authorization.Start.lookup_client
starts = refl

grant_consent-Granted_example :
    (s : Session) × (target : Option Resource) × Consented env approval pending s
    × (resolve_mint env s.resource pending ≡ ok target pending)
    × Granted env approval s target "r" after
grant_consent-Granted_example = grant_consent-Granted env approval pending after granted grants

grant_consent-atomic_example : pending ≡ record pending { drawn = 0 }
grant_consent-atomic_example =
    grant_consent-atomic env nothing refl pending pending invalid_scope refuses

reads :
    Sessions.get_by_id env.outside "session" pending
    ≡ ok (record session { code_hash = none }) pending
unfolding authserver.Store.Sessions.get_by_id
reads = refl

deny_consent-final_example :
    (succeeds (grant_consent env approval (final (deny_consent env "session" "user" pending)))
      ≡ false)
    × (succeeds (
          complete_authorization service "session"
            (final (deny_consent env "session" "user" pending)))
        ≡ false)
deny_consent-final_example =
    deny_consent-final service "session" "user" pending (record session { code_hash = none })
      approval reads refl refl refl

abbrev theft : GrantConsentRequest
theft = record { session_id = "session"; user_id = "mallory"; approved_scopes = "read" ∷ [] }

abbrev owner : String
owner = "user"

named : owner ≢ ""
named h = ground (arith, (eq_iff owner "").1 h)

other : owner ≢ "mallory"
other h = ground (arith, (eq_iff owner "mallory").1 h)

stranger-refused_example :
    (deny_consent env "session" "mallory" pending ≡ err invalid_grant pending)
    × (succeeds (grant_consent env theft pending) ≡ false)
    × (final (grant_consent env theft pending) ≡ pending)
stranger-refused_example =
    stranger-refused env "session" "mallory" pending (record session { code_hash = none }) theft
      refl refl (inr (named, other)) refl refl

start_authorization-Started_example : Started service request result pending started
start_authorization-Started_example =
    start_authorization-Started service request pending started result starts
