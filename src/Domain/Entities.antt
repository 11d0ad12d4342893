-- ===== src/Domain/Entities.antt =====
-- internal/domain/session/entity.go, internal/domain/token/entity.go and
-- internal/domain/resource/issuance.go: authorization sessions, token families, refresh tokens and
-- issuance rows. A time is a number; a nullable time or text is an `Option`.
use authserver.Common.{
  String, ℕ, Bool, true, false, List, Option, none, some, ltb, length, take, if◌then◌else◌,
}

-- `AuthSession`.
pub record Session : Type 0 where
  pub id : String
  pub client_id : String
  pub user_id : String
  pub redirect_uri : String
  pub scope : String
  pub resource : String
  pub state : String
  pub code_hash : Option String
  pub code_challenge : String
  pub code_challenge_method : String
  pub expires_at : ℕ
  pub consumed_at : Option ℕ
  pub created_at : ℕ

pub data FamilyStatus : Type 0 where
  active revoked : FamilyStatus

pub record Family : Type 0 where
  pub id : String
  pub client_id : String
  pub user_id : String
  pub scope : String
  pub resource : String
  pub status : FamilyStatus
  pub created_at : ℕ
  pub revoked_at : Option ℕ
  pub auth_session_id : Option String

pub record RefreshToken : Type 0 where
  pub id : String
  pub family_id : String
  pub token_hash : String
  pub expires_at : ℕ
  pub consumed_at : Option ℕ
  pub created_at : ℕ

abbrev pub is_set : Option ℕ → Bool
is_set none = false
is_set (some t) = true

unfoldable pub session_is_expired : ℕ → Session → Bool
session_is_expired now s = ltb s.expires_at now

unfoldable pub token_is_expired : ℕ → RefreshToken → Bool
token_is_expired now t = ltb t.expires_at now

abbrev status_active : FamilyStatus → Bool
status_active active = true
status_active revoked = false

unfoldable pub family_is_active : Family → Bool
family_is_active f = status_active f.status

abbrev pub max_agent_chain_length : ℕ
max_agent_chain_length = 8

pub record Issuance : Type 0 where
  pub id : String
  pub subject_user_id : String
  pub client_id : String
  pub resource_id : String
  pub scopes : List String
  pub issued_at : ℕ
  pub expires_at : ℕ
  pub revoked_at : Option ℕ
  pub jti : String
  pub dpop_jkt : String
  pub agent_id : String
  pub agent_chain : List String
  pub consent_client_id : String
  pub parent_jti : String

unfoldable pub set_agent_chain : List String → Issuance → Issuance
set_agent_chain chain i = record i {
  agent_chain =
      if ltb max_agent_chain_length (length chain)
      then take max_agent_chain_length chain
      else chain;
}

-- internal/domain/token/machine.go; the scopes are kept as the text that the store writes.
pub record MachineToken : Type 0 where
  pub jti : String
  pub client_id : String
  pub scopes : String
  pub resource : String
  pub issued_at : ℕ
  pub expires_at : ℕ
  pub revoked : Bool

unfoldable pub machine_token_is_expired : ℕ → MachineToken → Bool
machine_token_is_expired now t = ltb t.expires_at now
