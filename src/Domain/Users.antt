-- ===== src/Domain/Users.antt =====
-- internal/domain/user/entity.go: the user entity and its lifecycle. `Email`, `Name`, `PasswordHash`,
-- `ProviderSub`, `Version` and `CreatedAt` are left out: nothing modelled reads them.
use authserver.Common.{String, ℕ, Bool, true, false}

pub data Role : Type 0 where
  role_admin role_user : Role

pub data UserStatus : Type 0 where
  active disabled : UserStatus

pub record User : Type 0 where
  pub id : String
  pub role : Role
  pub status : UserStatus
  pub updated_at : ℕ

pub data UserOutcome : Type 0 where
  done : User → UserOutcome
  refused : (from to : UserStatus) → UserOutcome

abbrev status_active : UserStatus → Bool
status_active active = true
status_active disabled = false

unfoldable pub user_is_active : User → Bool
user_is_active u = status_active u.status

disable_from : UserStatus → ℕ → User → UserOutcome
disable_from active now u = done (record u { status = disabled; updated_at = now })
disable_from disabled now u = refused disabled disabled

unfoldable pub disable : ℕ → User → UserOutcome
unfolding disable_from
disable now u = disable_from u.status now u

enable_from : UserStatus → ℕ → User → UserOutcome
enable_from disabled now u = done (record u { status = active; updated_at = now })
enable_from active now u = refused active active

unfoldable pub enable : ℕ → User → UserOutcome
unfolding enable_from
enable now u = enable_from u.status now u
