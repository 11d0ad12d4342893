-- ===== src/Domain/Consents.antt =====
-- internal/domain/resource/grant.go: the consent of a user to a client for a resource.
use authserver.Common.{String, ℕ, Bool, true, List, Option, if◌then◌else◌, contains, all, is_empty}
use authserver.Domain.Entities.{is_set}

pub record ConsentGrant : Type 0 where
  pub id : String
  pub user_id : String
  pub client_id : String
  pub resource_id : String
  pub scopes : List String
  pub created_at : ℕ
  pub updated_at : ℕ
  pub revoked_at : Option ℕ

unfoldable pub grant_is_revoked : ConsentGrant → Bool
grant_is_revoked g = is_set g.revoked_at

unfoldable pub covers_scopes : ConsentGrant → List String → Bool
covers_scopes g requested = if is_empty requested then true else all (contains g.scopes) requested
