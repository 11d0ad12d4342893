-- ===== src/Store/Consents.antt =====
-- internal/adapters/sqlite/consent_grant_store.go: the consent grants, one for a user, a client and a
-- resource.
use authserver.Common.{String, Bool, ◌∷◌, Option, none, some, ◌==◌, ◌&&◌, not}
use authserver.Domain.Consents.{ConsentGrant, grant_is_revoked}
use authserver.Store.Table.{find, update}
use authserver.Store.Monad.{
  Outside, M, ok, ◌>>◌, reach, get_consent, upsert_consent, revoke_consent,
}

abbrev pub is_for : String → String → String → ConsentGrant → Bool
is_for user client resource g =
    g.user_id == user && g.client_id == client && g.resource_id == resource

unfoldable pub get : Outside → String → String → String → M (Option ConsentGrant)
unfolding grant_is_revoked
get o user client resource = do
  reach o get_consent
  λ w. ok (find (λ g. is_for user client resource g && not (grant_is_revoked g)) w.consents) w

unfoldable pub upsert : Outside → ConsentGrant → M (Unit {0})
upsert o g = do
  reach o upsert_consent
  λ w. elim (find (is_for g.user_id g.client_id g.resource_id) w.consents) [
    | none ↦ ok tt (record w { consents = g ∷ w.consents })
    | some old ↦ ok tt (record w {
      consents =
          update (is_for g.user_id g.client_id g.resource_id)
            (λ r. record r { scopes = g.scopes; updated_at = g.updated_at; revoked_at = none })
            w.consents;
    })
  ]

unfoldable pub revoke : Outside → String → M (Unit {0})
revoke o id = do
  reach o revoke_consent
  λ w. ok tt (record w {
    consents =
        update (λ g. g.id == id) (λ g. record g { revoked_at = some o.now; updated_at = o.now })
          w.consents;
  })
