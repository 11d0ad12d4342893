-- ===== src/Token/Tests.antt =====
-- The grants of internal/services/token.go on the database of Token/Examples.
use authserver.Common.{
  String, ℕ, ◌-◌, ◌<◌, Bool, true, false, List, some, none, [], ◌∷◌, ◌≡◌, ◌≢◌, ◌↔◌, refl, inl, inr,
  In, arith, eq_iff,
}
use authserver.Domain.Errors.{internal, family_revoked}
use authserver.Domain.Entities.{Family, RefreshToken, Session}
use authserver.Domain.Entities
use authserver.Scope.{Set, parse}
use authserver.Store.Monad.{World, Call, commit_tx, ok, err, final}
use authserver.Token.Env.{Env, DpopConfig}
use authserver.Token.Dpop.{bind_dpop, duration_limit, is_stale}
use authserver.Pkce.{verify_s256, is_verified}
use authserver.Token.Reuse.{handle_code_reuse}
use authserver.Token.Refresh.{TokenResponse, Checked, refresh_token, check_refresh, refresh_scope}
use authserver.Token.Exchange.{exchange_code}
use authserver.Token.Histories.{stop}
use authserver.Token.Lasting.{Dead, Used, Spent}
use authserver.Token.Revoked.{succeeds, revoked_family-stays_refused}
use authserver.Token.Codes.{exchange_code-Spent, code-redeemed_once}
use authserver.Token.Rotation.{Rotated, refresh_token-Rotated}
use authserver.Token.Detection.{refresh_token-used_once}
use authserver.Token.Punishment.{Working, Punished, replay-Punished}
use authserver.Token.Granted.{Exchanged, exchange_code-Exchanged}
use authserver.Token.Scopes.{Within, refresh_scope-Within, refresh_scope-asked}
use authserver.Token.Replay.{Bound, Timely, bind_dpop-Bound, bind_dpop-once}
use authserver.Token.Atomic.{handle_code_reuse-uncredentialed, handle_code_reuse-Punished}
use authserver.Token.Failed.{Unmade, exchange_code-atomic}
use authserver.Token.Examples.{
  env, outside, world, app, session, family, token, verifier, refresh_request, exchange_request,
}

abbrev refreshed : World
refreshed = final (refresh_token env refresh_request world)

abbrev response : TokenResponse
response = record {
  access_token = "r";
  token_type = "Bearer";
  expires_in = 600;
  refresh_token = "rr";
  scope = "read";
}

refreshes : refresh_token env refresh_request world ≡ ok response refreshed
unfolding authserver.Token.Refresh.refresh_token authserver.Token.Refresh.refresh_checked
    authserver.Token.Refresh.finish_refresh authserver.Store.Revocations.revoke
    authserver.Domain.Clients.revoke authserver.Token.Refresh.rest_of authserver.Token.Env.audited
    authserver.Token.Refresh.create_refresh_token authserver.Store.Tokens.insert_token
    authserver.Domain.Entities.family_is_active authserver.Store.Tokens.get
    authserver.Token.Refresh.mint_refreshed authserver.Token.Refresh.mint_token
    authserver.Token.Refresh.track_jti authserver.Store.Revocations.track
    authserver.Token.Mint.agent_claims authserver.Token.Mint.build_mint_request
    authserver.Scope.fields authserver.Token.Mint.issue authserver.Scope.join
    authserver.Domain.Entities.set_agent_chain authserver.Store.Revocations.insert
    authserver.Token.Dpop.bind_dpop authserver.Token.Dpop.validate_dpop
    authserver.Store.Revocations.consume_jti authserver.Common.contains
    authserver.Store.Revocations.check_dpop_nonce authserver.Token.Dpop.validate_proof
    authserver.Token.Auth.check_subject_refresh authserver.Token.Reuse.consume_or_revoke_family
    authserver.Store.Tokens.consume_by_id authserver.Token.Reuse.revoke_family_on_reuse
    authserver.Token.Reuse.run_reuse_halves authserver.Token.Reuse.denylist_family_jtis
    authserver.Store.Revocations.deny_by_family authserver.Common.add_key
    authserver.Token.Reuse.revoke_family_half authserver.Store.Tokens.revoke_by_id
    authserver.Token.Refresh.check_refresh authserver.Token.Refresh.refresh_scope
    authserver.Scope.parse authserver.Scope.to_string authserver.Common.sort_strings
    authserver.Scope.intersect authserver.Scope.is_subset
    authserver.Token.Auth.validate_requested_resource authserver.Token.Auth.resource_fits
    authserver.Token.Auth.resource_identity_equal authserver.Domain.Clients.has_grant_type
    authserver.Token.Auth.authenticate_client authserver.Token.Auth.secret_fits
    authserver.Domain.Clients.is_public authserver.Domain.Clients.is_active
    authserver.Domain.Entities.token_is_expired authserver.Store.Tokens.get_by_hash
refreshes = refl

refresh_token-Rotated_example : Rotated env refresh_request world refreshed response
refresh_token-Rotated_example =
    refresh_token-Rotated env refresh_request world refreshed response (λ x. stop) refreshes

refresh_token-used_once_example : succeeds (refresh_token env refresh_request refreshed) ≡ false
refresh_token-used_once_example =
    refresh_token-used_once env env refresh_request refresh_request world refreshed refreshed
      response (λ x. stop) refreshes stop refl

abbrev exchanged : World
exchanged = final (exchange_code env exchange_request world)

abbrev code_response : TokenResponse
code_response = record {
  access_token = "r";
  token_type = "Bearer";
  expires_in = 600;
  refresh_token = "rrr";
  scope = "read";
}

exchanges : exchange_code env exchange_request world ≡ ok code_response exchanged
unfolding authserver.Token.Exchange.exchange_code authserver.Token.Exchange.exchange_checked
    authserver.Token.Exchange.issue_for_code authserver.Token.Refresh.refresh_token
    authserver.Token.Refresh.refresh_checked authserver.Token.Refresh.finish_refresh
    authserver.Token.Refresh.rest_of authserver.Token.Env.audited
    authserver.Token.Refresh.create_refresh_token authserver.Store.Tokens.insert_token
    authserver.Domain.Entities.family_is_active authserver.Store.Tokens.get
    authserver.Token.Refresh.mint_refreshed authserver.Token.Refresh.mint_token
    authserver.Token.Refresh.track_jti authserver.Store.Revocations.track
    authserver.Token.Mint.agent_claims authserver.Token.Mint.build_mint_request
    authserver.Scope.fields authserver.Token.Mint.issue authserver.Scope.join
    authserver.Domain.Entities.set_agent_chain authserver.Store.Revocations.insert
    authserver.Token.Dpop.bind_dpop authserver.Token.Dpop.validate_dpop
    authserver.Store.Revocations.consume_jti authserver.Common.contains
    authserver.Store.Revocations.check_dpop_nonce authserver.Token.Dpop.validate_proof
    authserver.Token.Auth.check_subject_refresh authserver.Token.Reuse.consume_or_revoke_family
    authserver.Store.Tokens.consume_by_id authserver.Token.Reuse.revoke_family_on_reuse
    authserver.Token.Reuse.run_reuse_halves authserver.Token.Reuse.denylist_family_jtis
    authserver.Store.Revocations.deny_by_family authserver.Common.add_key
    authserver.Token.Reuse.revoke_family_half authserver.Store.Tokens.revoke_by_id
    authserver.Token.Refresh.check_refresh authserver.Token.Refresh.refresh_scope
    authserver.Scope.parse authserver.Scope.to_string authserver.Common.sort_strings
    authserver.Scope.intersect authserver.Scope.is_subset
    authserver.Token.Auth.validate_requested_resource authserver.Token.Auth.resource_fits
    authserver.Token.Auth.resource_identity_equal authserver.Domain.Clients.has_grant_type
    authserver.Token.Auth.authenticate_client authserver.Token.Auth.secret_fits
    authserver.Domain.Clients.is_public authserver.Domain.Clients.is_active
    authserver.Domain.Entities.token_is_expired authserver.Store.Tokens.get_by_hash
    authserver.Token.Exchange.create_family_and_refresh authserver.Store.Tokens.insert_family
    authserver.Token.Exchange.in_transaction authserver.Token.Exchange.check_code
    authserver.Token.Exchange.check_session authserver.Token.Auth.check_subject
    authserver.Pkce.verify_s256 authserver.Domain.Entities.session_is_expired
    authserver.Token.Reuse.handle_code_reuse authserver.Store.Tokens.get_by_auth_session_id
    authserver.Token.Reuse.is_credentialed authserver.Store.Sessions.consume_by_code_hash
exchanges = refl

exchange_code-Exchanged_example : Exchanged env exchange_request world exchanged code_response
exchange_code-Exchanged_example =
    exchange_code-Exchanged env exchange_request world exchanged code_response exchanges

exchange_code-Spent_example : Spent "code" (final (exchange_code env exchange_request world))
exchange_code-Spent_example = exchange_code-Spent env exchange_request world refl refl

code-redeemed_once_example : succeeds (exchange_code env exchange_request exchanged) ≡ false
code-redeemed_once_example =
    code-redeemed_once env env exchange_request exchange_request world exchanged refl refl refl stop

abbrev used_token : RefreshToken
used_token = record token { consumed_at = some 5 }

abbrev used_world : World
used_world = record world { tokens = used_token ∷ [] }

abbrev checked : Checked
checked = record { token = used_token; family = family; client = app; scope = "read" }

working : Working env
working = record { consumes = refl; revokes = refl; denies = refl; wired = refl }

checks : check_refresh env refresh_request used_world ≡ ok checked used_world
unfolding authserver.Token.Refresh.check_refresh authserver.Token.Refresh.refresh_scope
    authserver.Scope.parse authserver.Scope.fields authserver.Common.add_key
    authserver.Common.contains authserver.Scope.to_string authserver.Common.sort_strings
    authserver.Scope.join authserver.Scope.intersect authserver.Scope.is_subset
    authserver.Token.Auth.validate_requested_resource authserver.Token.Auth.resource_fits
    authserver.Token.Auth.resource_identity_equal authserver.Token.Refresh.refresh_token
    authserver.Token.Refresh.refresh_checked authserver.Token.Refresh.finish_refresh
    authserver.Store.Revocations.revoke authserver.Domain.Clients.revoke
    authserver.Token.Refresh.rest_of authserver.Token.Env.audited
    authserver.Token.Refresh.create_refresh_token authserver.Store.Tokens.insert_token
    authserver.Domain.Entities.family_is_active authserver.Store.Tokens.get
    authserver.Token.Refresh.mint_refreshed authserver.Token.Refresh.mint_token
    authserver.Token.Refresh.track_jti authserver.Store.Revocations.track
    authserver.Token.Mint.agent_claims authserver.Token.Mint.build_mint_request
    authserver.Token.Mint.issue authserver.Domain.Entities.set_agent_chain
    authserver.Store.Revocations.insert authserver.Token.Dpop.bind_dpop
    authserver.Token.Dpop.validate_dpop authserver.Store.Revocations.consume_jti
    authserver.Store.Revocations.check_dpop_nonce authserver.Token.Dpop.validate_proof
    authserver.Token.Auth.check_subject_refresh authserver.Token.Reuse.consume_or_revoke_family
    authserver.Store.Tokens.consume_by_id authserver.Token.Reuse.revoke_family_on_reuse
    authserver.Token.Reuse.run_reuse_halves authserver.Token.Reuse.denylist_family_jtis
    authserver.Store.Revocations.deny_by_family authserver.Token.Reuse.revoke_family_half
    authserver.Store.Tokens.revoke_by_id authserver.Domain.Clients.has_grant_type
    authserver.Token.Auth.authenticate_client authserver.Token.Auth.secret_fits
    authserver.Domain.Clients.is_public authserver.Domain.Clients.is_active
    authserver.Domain.Entities.token_is_expired authserver.Store.Tokens.get_by_hash
checks = refl

used_world-Used : Used "token" used_world
unfolding Used
used_world-Used = refl

replay-Punished_example :
    (z : World) × (refresh_token env refresh_request used_world ≡ err family_revoked z)
    × Punished "family" used_world z
replay-Punished_example =
    replay-Punished env refresh_request used_world checked working checks used_world-Used

abbrev dead_world : World
dead_world = record world { families = record family { status = Entities.revoked } ∷ [] }

dead_world-Dead : Dead "family" dead_world
unfolding Dead authserver.Domain.Entities.family_is_active
dead_world-Dead = refl

revoked_family-stays_refused_example :
    succeeds (refresh_token env refresh_request dead_world) ≡ false
revoked_family-stays_refused_example =
    revoked_family-stays_refused env refresh_request dead_world dead_world token stop
      dead_world-Dead refl

abbrev is_commit : Call → Bool
is_commit commit_tx = true
is_commit c = false

abbrev no_commit : Env
no_commit = record env { outside = record outside { fails = is_commit } }

abbrev left : World
left = final (exchange_code no_commit exchange_request world)

exchange_fails : exchange_code no_commit exchange_request world ≡ err internal left
unfolding authserver.Token.Exchange.exchange_code authserver.Token.Exchange.exchange_checked
    authserver.Token.Exchange.issue_for_code authserver.Token.Refresh.refresh_token
    authserver.Token.Refresh.refresh_checked authserver.Token.Refresh.finish_refresh
    authserver.Token.Refresh.rest_of authserver.Token.Env.audited
    authserver.Token.Refresh.create_refresh_token authserver.Store.Tokens.insert_token
    authserver.Domain.Entities.family_is_active authserver.Store.Tokens.get
    authserver.Token.Refresh.mint_refreshed authserver.Token.Refresh.mint_token
    authserver.Token.Refresh.track_jti authserver.Store.Revocations.track
    authserver.Token.Mint.agent_claims authserver.Token.Mint.build_mint_request
    authserver.Scope.fields authserver.Token.Mint.issue authserver.Scope.join
    authserver.Domain.Entities.set_agent_chain authserver.Store.Revocations.insert
    authserver.Token.Dpop.bind_dpop authserver.Token.Dpop.validate_dpop
    authserver.Store.Revocations.consume_jti authserver.Common.contains
    authserver.Store.Revocations.check_dpop_nonce authserver.Token.Dpop.validate_proof
    authserver.Token.Auth.check_subject_refresh authserver.Token.Reuse.consume_or_revoke_family
    authserver.Store.Tokens.consume_by_id authserver.Token.Reuse.revoke_family_on_reuse
    authserver.Token.Reuse.run_reuse_halves authserver.Token.Reuse.denylist_family_jtis
    authserver.Store.Revocations.deny_by_family authserver.Common.add_key
    authserver.Token.Reuse.revoke_family_half authserver.Store.Tokens.revoke_by_id
    authserver.Token.Refresh.check_refresh authserver.Token.Refresh.refresh_scope
    authserver.Scope.parse authserver.Scope.to_string authserver.Common.sort_strings
    authserver.Scope.intersect authserver.Scope.is_subset
    authserver.Token.Auth.validate_requested_resource authserver.Token.Auth.resource_fits
    authserver.Token.Auth.resource_identity_equal authserver.Domain.Clients.has_grant_type
    authserver.Token.Auth.authenticate_client authserver.Token.Auth.secret_fits
    authserver.Domain.Clients.is_public authserver.Domain.Clients.is_active
    authserver.Domain.Entities.token_is_expired authserver.Store.Tokens.get_by_hash
    authserver.Token.Exchange.create_family_and_refresh authserver.Store.Tokens.insert_family
    authserver.Token.Exchange.in_transaction authserver.Token.Exchange.check_code
    authserver.Token.Exchange.check_session authserver.Token.Auth.check_subject
    authserver.Pkce.verify_s256 authserver.Domain.Entities.session_is_expired
    authserver.Token.Reuse.handle_code_reuse authserver.Store.Tokens.get_by_auth_session_id
    authserver.Token.Reuse.is_credentialed authserver.Store.Sessions.consume_by_code_hash
exchange_fails = refl

exchange_code-atomic_example : Unmade world left
exchange_code-atomic_example =
    exchange_code-atomic no_commit exchange_request session world left internal refl refl
      exchange_fails

is_replay : is_verified (verify_s256 env.s256 verifier session.code_challenge) ≡ true
unfolding verify_s256
is_replay = refl

family_is_live : Entities.family_is_active family ≡ true
unfolding Entities.family_is_active
family_is_live = refl

handle_code_reuse-Punished_example :
    Punished "family" world (final (handle_code_reuse env session verifier "app" world))
handle_code_reuse-Punished_example =
    handle_code_reuse-Punished env session verifier "app" family world working refl is_replay refl
      refl refl family_is_live

is_probe : is_verified (verify_s256 env.s256 "" session.code_challenge) ≡ false
unfolding verify_s256
is_probe = refl

handle_code_reuse-uncredentialed_example :
    ((final (handle_code_reuse env session "" "app" world)).families ≡ world.families)
    × ((final (handle_code_reuse env session "" "app" world)).tokens ≡ world.tokens)
    × ((final (handle_code_reuse env session "" "app" world)).denied ≡ world.denied)
handle_code_reuse-uncredentialed_example =
    handle_code_reuse-uncredentialed env session "" "app" world (inl is_probe)

abbrev config : DpopConfig
config = record { enabled = true; require_nonce = false; proof_lifetime = 60000000000 }

abbrev bound : World
bound = final (bind_dpop env "proof" "POST" "https://as/token" world)

binds : bind_dpop env "proof" "POST" "https://as/token" world ≡ ok "thumb" bound
unfolding authserver.Token.Dpop.bind_dpop authserver.Token.Dpop.validate_dpop
    authserver.Store.Revocations.consume_jti authserver.Common.contains
    authserver.Store.Revocations.check_dpop_nonce authserver.Token.Dpop.validate_proof
    authserver.Token.Dpop.is_stale
binds = refl

-- A proof of the year 2286, which a clock of the year 1970 accepts; one of the year 2001 is stale.
accepts_far_ahead : is_stale config.proof_lifetime env.now 9999999999 ≡ false
unfolding is_stale
accepts_far_ahead = refl

refuses_ahead : is_stale config.proof_lifetime env.now 999999999 ≡ true
unfolding is_stale
refuses_ahead = refl

abbrev sent : String
sent = "proof"

is_sent : sent ≢ ""
is_sent h = ground (arith, (eq_iff sent "").1 h)

short : config.proof_lifetime < duration_limit - 1
short = omega arith

bind_dpop-Bound_example :
    (b : Bound env config.proof_lifetime "proof" "POST" "thumb" world bound) × Timely
      config.proof_lifetime env.now b.proven.read.iat
bind_dpop-Bound_example =
    bind_dpop-Bound env config "proof" "POST" "https://as/token" world bound "thumb" refl refl short
      is_sent binds

bind_dpop-once_example : succeeds (bind_dpop env "proof" "POST" "https://as/token" bound) ≡ false
bind_dpop-once_example =
    bind_dpop-once env config "proof" "POST" "POST" "https://as/token" "https://as/token" world
      bound bound "thumb" refl refl is_sent binds (λ s h. h)

narrows : refresh_scope "read" "read write" app ≡ some "read"
unfolding authserver.Token.Refresh.refresh_scope authserver.Scope.parse authserver.Scope.fields
    authserver.Common.add_key authserver.Common.contains authserver.Scope.to_string
    authserver.Common.sort_strings authserver.Scope.join authserver.Scope.intersect
    authserver.Scope.is_subset
narrows = refl

refresh_scope-Within_example : Within (parse "read") (parse "read write") (parse "read write")
refresh_scope-Within_example = refresh_scope-Within "read" "read write" app "read" narrows

abbrev asked : String
asked = "read"

is_asked : asked ≢ ""
is_asked h = ground (arith, (eq_iff asked "").1 h)

read-Within : Within (parse "read") (parse "read write") (parse "read write")
unfolding parse authserver.Scope.fields authserver.Common.add_key authserver.Common.contains
read-Within = (λ s h. inr h, inr (λ s h. inr h))

refresh_scope-asked_example :
    (s : String) × (refresh_scope "read" "read write" app ≡ some s)
    × ((t : String) → In t (parse s) ↔ In t (parse "read"))
refresh_scope-asked_example = refresh_scope-asked "read" "read write" app is_asked read-Within
