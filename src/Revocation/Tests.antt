-- ===== src/Revocation/Tests.antt =====
-- The revocation endpoint of internal/services/revocation.go on a small database.
use authserver.Common.{true, some, none, ◌≡◌, ◌↔◌, refl}
use authserver.Domain.Clients.{Client}
use authserver.Store.Table.{find}
use authserver.Store.Tokens.{has_id}
use authserver.Store.Monad.{World, ok, final}
use authserver.Token.Punishment.{Working, Punished}
use authserver.Token.Revoked.{succeeds}
use authserver.Token.Examples.{env, world, family, token}
use authserver.Revocation.Service.{RevokeRequest, Revoker, welcome, standing, revoke_token}
use authserver.Revocation.Laws.{
  Owned, Answered, revoke_token-Punished, revoke_token-others, revoke_token-succeeds,
}

abbrev revoker : Revoker
revoker = record { env = env; has_machine_tokens = true; read_token = λ s. none }

abbrev request : RevokeRequest
request = record {
  token = "refresh";
  token_type_hint = "";
  client_id = "app";
  client_secret = "secret";
}

abbrev stranger : RevokeRequest
stranger = record {
  token = "refresh";
  token_type_hint = "";
  client_id = "other";
  client_secret = "";
}

owned : Owned revoker request world
owned = record { token = token; stored = refl; family = family; held = refl; owns = refl }

working : Working env
working = record { consumes = refl; revokes = refl; denies = refl; wired = refl }

is_welcome : standing env request (env.client "app") ≡ welcome
unfolding standing authserver.Domain.Clients.is_public authserver.Domain.Clients.is_active
is_welcome = refl

revoke_token-Punished_example :
    (z : World) × (revoke_token revoker request world ≡ ok tt z)
    × Punished owned.token.family_id world z
revoke_token-Punished_example =
    revoke_token-Punished revoker request world owned working refl refl is_welcome

revoke_token-others_example :
    find (has_id "family") (final (revoke_token revoker stranger world)).families ≡ some family
revoke_token-others_example = revoke_token-others revoker stranger "family" family world refl refl

revoke_token-succeeds_example :
    (succeeds (revoke_token revoker request world) ≡ true)
    ↔ ((c : Client) × (env.client "app" ≡ some c) × Answered env c "secret")
revoke_token-succeeds_example = revoke_token-succeeds revoker request world
