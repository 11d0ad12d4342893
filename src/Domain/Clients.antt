-- ===== src/Domain/Clients.antt =====
-- internal/domain/client/entity.go: the client entity, its lifecycle and its redirect URIs.
-- `IssuedAt` and `Name` are left out of the entity: nothing modelled reads them.
use authserver.Common.{
  String, ℕ, Bool, true, false, List, [], ◌∷◌, ◌==◌, if◌then◌else◌, ◌≡◌, ◌↔◌, arith,
}

pub data Status : Type 0 where
  active suspended revoked : Status

pub data RegistrationSource : Type 0 where
  dcr cimd admin : RegistrationSource

pub record Client : Type 0 where
  pub id : String
  pub secret_hash : String
  pub redirect_uris : List String
  pub grant_types : List String
  pub response_types : List String
  pub token_endpoint_auth_method : String
  pub status : Status
  pub registration_source : RegistrationSource
  pub cimd_url : String
  pub application_type : String
  pub scope : String
  pub is_agent : Bool
  pub updated_at : ℕ

-- `StateError`: a transition that is not allowed, with both ends.
pub record StateError : Type 0 where
  pub from : Status
  pub to : Status

pub data Outcome : Type 0 where
  done : Client → Outcome
  refused : StateError → Outcome

unfoldable pub is_public : Client → Bool
is_public c = c.secret_hash == ""

abbrev status_active : Status → Bool
status_active active = true
status_active _ = false

unfoldable pub is_active : Client → Bool
is_active c = status_active c.status

status_iff : (s : Status) → (status_active s ≡ true) ↔ (s ≡ active)
status_iff active = ground arith
status_iff suspended = ground arith
status_iff revoked = ground arith

pub is_active-status : (c : Client) → (is_active c ≡ true) ↔ (c.status ≡ active)
unfolding is_active
is_active-status c = status_iff c.status

suspend_from : Status → ℕ → Client → Outcome
suspend_from active now c = done (record c { status = suspended; updated_at = now })
suspend_from s now c = refused (record { from = s; to = suspended })

unfoldable pub suspend : ℕ → Client → Outcome
unfolding suspend_from
suspend now c = suspend_from c.status now c

unfoldable pub revoke : ℕ → Client → Client
revoke now c = record c { status = revoked; updated_at = now }

reactivate_from : Status → ℕ → Client → Outcome
reactivate_from suspended now c = done (record c { status = active; updated_at = now })
reactivate_from s now c = refused (record { from = s; to = active })

unfoldable pub reactivate : ℕ → Client → Outcome
unfolding reactivate_from
reactivate now c = reactivate_from c.status now c

-- `hasGrantType` of internal/services/client_credentials.go.
unfoldable pub has_grant_type : List String → String → Bool
has_grant_type [] target = false
has_grant_type (gt ∷ rest) target = if gt == target then true else has_grant_type rest target

unfoldable pub effective_application_type : Client → String
effective_application_type c = if c.application_type == "" then "web" else c.application_type
