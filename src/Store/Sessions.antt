-- ===== src/Store/Sessions.antt =====
-- internal/adapters/sqlite/session.go: the authorization sessions.
use authserver.Common.{
  String, ℕ, Bool, false, List, ◌∷◌, Option, none, some, if◌then◌else◌, ◌==◌, ◌&&◌, not, ltb, keep,
}
use authserver.Domain.Errors.{Error, invalid_grant, internal}
use authserver.Domain.Entities.{Session, is_set}
use authserver.Store.Table.{find, update}
use authserver.Store.Monad.{
  World, Outside, M, Run, ok, err, ◌>>◌, reach, consume_code, create_session, get_session,
  update_code, delete_session,
}

-- A nullable column against a text: NULL equals nothing.
abbrev pub column_is : Option String → String → Bool
column_is none h = false
column_is (some c) h = c == h

abbrev pub has_code : String → Session → Bool
has_code h s = column_is s.code_hash h

abbrev pub is_open : Session → Bool
is_open s = not (is_set s.consumed_at)

abbrev pub stamp : ℕ → Session → Session
stamp now s = record s { consumed_at = some now }

-- What `ConsumeByCodeHash` returns: the session that it consumed, the session that had been
-- consumed before (with `ErrCodeConsumed`), or an error.
pub data Redeemed : Type 0 where
  fresh used : Session → Redeemed
  refused : Error → Redeemed

abbrev pub redeem_fresh : World → List Session → Option Session → Run Redeemed
redeem_fresh w after none = ok (refused internal) w
redeem_fresh w after (some s) = ok (fresh s) (record w { sessions = after })

abbrev pub redeem_used : Option Session → Redeemed
redeem_used none = refused invalid_grant
redeem_used (some s) = used s

-- `code_hash` is unique, so that the update touches one row or none.
unfoldable pub consume_by_code_hash : Outside → String → M Redeemed
consume_by_code_hash o h w =
    if o.fails consume_code
    then ok (refused internal) w
    else elim (find (λ s. has_code h s && is_open s) w.sessions) [
      | some s ↦
          let after = update (λ t. has_code h t && is_open t) (stamp o.now) w.sessions in
          redeem_fresh w after (find (has_code h) after)
      | none ↦ ok (redeem_used (find (has_code h) w.sessions)) w
    ]

unfoldable pub create : Outside → Session → M (Unit {0})
create o s = do reach o create_session; λ w. ok tt (record w { sessions = s ∷ w.sessions })

unfoldable pub get_by_id : Outside → String → M Session
get_by_id o id = do
  reach o get_session
  λ w. elim (find (λ s. s.id == id) w.sessions) [ none ↦ err invalid_grant w | some s ↦ ok s w ]

abbrev pub updatable : ℕ → String → Session → Bool
updatable now id s = s.id == id && ltb now s.expires_at && is_open s

unfoldable pub update_code_hash_and_scope : Outside → String → String → String → M (Unit {0})
update_code_hash_and_scope o id h scope = do
  reach o update_code
  λ w. elim (find (updatable o.now id) w.sessions) [
    | none ↦ err invalid_grant w
    | some s ↦ ok tt (record w {
      sessions =
          update (updatable o.now id) (λ t. record t { code_hash = some h; scope = scope })
            w.sessions;
    })
  ]

unfoldable pub delete : Outside → String → M (Unit {0})
delete o id = do
  reach o delete_session
  λ w. ok tt (record w { sessions = keep (λ s. not (s.id == id)) w.sessions })
