-- ===== src/Store/Tokens.antt =====
-- internal/adapters/sqlite/token.go: token families and refresh tokens. A violated key or a missing
-- referenced row of another table is a failing call.
use authserver.Common.{
  String, ℕ, Bool, true, false, ◌∷◌, Option, none, some, if◌then◌else◌, ◌==◌, ◌&&◌, not,
}
use authserver.Domain.Errors.{invalid_grant, internal, refresh_token_reused}
use authserver.Domain.Entities.{Family, RefreshToken, FamilyStatus, active, revoked, is_set}
use authserver.Store.Table.{find, update}
use authserver.Store.Monad.{
  Outside, Call, M, ok, err, ◌>>◌, reach, create_family, create_refresh_token, get_refresh_token,
  consume_refresh_token, revoke_family, family_by_session,
}

abbrev pub has_id : String → Family → Bool
has_id id f = f.id == id

abbrev pub status_active : FamilyStatus → Bool
status_active active = true
status_active revoked = false

abbrev pub in_family : String → RefreshToken → Bool
in_family id t = t.family_id == id

abbrev pub token_has_id : String → RefreshToken → Bool
token_has_id id t = t.id == id

abbrev pub live_in : String → RefreshToken → Bool
live_in id t = in_family id t && not (is_set t.consumed_at)

abbrev pub live : String → RefreshToken → Bool
live id t = token_has_id id t && not (is_set t.consumed_at)

abbrev pub has_hash : String → RefreshToken → Bool
has_hash h t = t.token_hash == h

abbrev pub consume : ℕ → RefreshToken → RefreshToken
consume now t = record t { consumed_at = some now }

abbrev pub revoke : ℕ → Family → Family
revoke now f = record f { status = revoked; revoked_at = some now }

abbrev pub row : {A : Type 0} → Option A → M A
row none w = err invalid_grant w
row (some a) w = ok a w

abbrev pub held : {A : Type 0} → Option A → Bool
held none = false
held (some a) = true

-- INSERT: a primary key that is taken is an error.
unfoldable pub insert_family : Outside → Family → M (Unit {0})
insert_family o f = do
  reach o create_family
  λ w.
      if held (find (has_id f.id) w.families)
      then err internal w
      else ok tt (record w { families = f ∷ w.families })

unfoldable pub get : Outside → Call → String → M Family
get o c id = do reach o c; λ w. row (find (has_id id) w.families) w

abbrev pub born_of : String → Family → Bool
born_of sid f = elim f.auth_session_id [ none ↦ false | some s ↦ s == sid ]

unfoldable pub get_by_auth_session_id : Outside → String → M Family
get_by_auth_session_id o sid = do
  reach o family_by_session
  λ w. row (find (born_of sid) w.families) w

abbrev pub revocable : String → Family → Bool
revocable id f = has_id id f && status_active f.status

-- One transaction: the family is revoked and its tokens are consumed. The result says whether a
-- family was revoked by this call.
unfoldable pub revoke_by_id : Outside → String → M Bool
revoke_by_id o id = do
  reach o revoke_family
  λ w. ok (held (find (revocable id) w.families)) (record w {
    families = update (revocable id) (revoke o.now) w.families;
    tokens = update (live_in id) (consume o.now) w.tokens;
  })

unfoldable pub insert_token : Outside → RefreshToken → M (Unit {0})
insert_token o t = do
  reach o create_refresh_token
  λ w.
      if held (find (token_has_id t.id) w.tokens)
      then err internal w
      else if held (find (has_hash t.token_hash) w.tokens)
      then err internal w
      else ok tt (record w { tokens = t ∷ w.tokens })

unfoldable pub get_by_hash : Outside → String → M RefreshToken
get_by_hash o h = do reach o get_refresh_token; λ w. row (find (has_hash h) w.tokens) w

abbrev consume_found : Outside → String → Option RefreshToken → M RefreshToken
consume_found o id none w = err invalid_grant w
consume_found o id (some t) w =
    if is_set t.consumed_at
    then err refresh_token_reused w
    else ok (consume o.now t) (record w { tokens = update (live id) (consume o.now) w.tokens })

-- A token that had been consumed is refused, and nothing changes.
unfoldable pub consume_by_id : Outside → String → M RefreshToken
consume_by_id o id = do
  reach o consume_refresh_token
  λ w. consume_found o id (find (token_has_id id) w.tokens) w
