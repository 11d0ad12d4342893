-- ===== src/Domain/Errors.antt =====
-- internal/domain/errors.go: the sentinel errors that the modelled services return, with their codes.
-- An error that wraps a sentinel (`%w`) is that sentinel; its message text is left out. `internal`
-- is an error of a store or of another port that wraps no sentinel.
use authserver.Common.{String}

pub data Error : Type 0 where
  invalid_grant invalid_client invalid_scope code_consumed family_revoked : Error
  reuse_revocation_failed session_expired invalid_redirect_uri invalid_pkce : Error
  client_suspended refresh_token_reused unauthorized_client invalid_target : Error
  dpop_replay dpop_invalid_proof dpop_nonce_required dpop_nonce_mismatch : Error
  resource_not_found consent_resource_not_mint invalid_slug : Error
  fronting_link_not_found fronting_link_exists fronting_link_cycle : Error
  ambiguous_resource consent_required resource_has_references : Error
  resource_has_fronting_links conflict : Error
  invalid_request internal : Error

-- The wire code of each error; an error without a code is a server error.
unfoldable pub error_code : Error → String
error_code invalid_grant = "invalid_grant"
error_code invalid_client = "invalid_client"
error_code invalid_scope = "invalid_scope"
error_code code_consumed = "invalid_grant"
error_code family_revoked = "invalid_grant"
error_code reuse_revocation_failed = "invalid_grant"
error_code session_expired = "invalid_grant"
error_code invalid_redirect_uri = "invalid_request"
error_code invalid_pkce = "invalid_grant"
error_code client_suspended = "invalid_client"
error_code refresh_token_reused = "invalid_grant"
error_code unauthorized_client = "unauthorized_client"
error_code invalid_target = "invalid_target"
error_code dpop_replay = "invalid_dpop_proof"
error_code dpop_invalid_proof = "invalid_dpop_proof"
error_code dpop_nonce_required = "use_dpop_nonce"
error_code dpop_nonce_mismatch = "use_dpop_nonce"
error_code resource_not_found = "not_found"
error_code consent_resource_not_mint = "invalid_request"
error_code invalid_slug = "invalid_request"
error_code fronting_link_not_found = "not_found"
error_code fronting_link_exists = "conflict"
error_code fronting_link_cycle = "invalid_request"
error_code ambiguous_resource = "invalid_request"
error_code consent_required = "consent_required"
error_code resource_has_references = "conflict"
error_code resource_has_fronting_links = "conflict"
error_code conflict = "conflict"
error_code invalid_request = "invalid_request"
error_code internal = "server_error"
