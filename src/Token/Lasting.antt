-- ===== src/Token/Lasting.antt =====
-- Facts on the rows that no statement of internal/adapters/sqlite/session.go and token.go undoes: a
-- revoked family, a spent code, a used refresh token, and the owner of a token's hash.
use authserver.Common.{
  String, ℕ, Bool, true, false, Option, none, some, ◌≡◌, refl, arith, ◌==◌, ◌&&◌, not, eq_iff,
  Bool-cases, inl, inr, List, [], ◌∷◌,
}
use authserver.Domain.Entities.{Session, Family, RefreshToken, family_is_active, is_set}
use authserver.Store.Table.{find, update}
use authserver.Store.Monad.{World}
use authserver.Store.Sessions.{consume_by_code_hash, has_code, is_open, stamp}
use authserver.Store.Tokens.{
  insert_family, revoke_by_id, insert_token, consume_by_id, has_id, token_has_id, has_hash, revoke,
  consume, revocable, live, live_in,
}
use authserver.Token.Keeps.{Closed}

abbrev pub inactive : Option Family → Bool
inactive none = false
inactive (some f) = not (family_is_active f)

-- The family is there, and is not active.
unfoldable pub Dead : String → World → Type 0
Dead id w = inactive (find (has_id id) w.families) ≡ true

-- No session of this code is open.
unfoldable pub Spent : String → World → Type 0
Spent h w = find (λ s. has_code h s && is_open s) w.sessions ≡ none

abbrev pub was_used : Option RefreshToken → Bool
was_used none = false
was_used (some t) = is_set t.consumed_at

unfoldable pub Used : String → World → Type 0
Used id w = was_used (find (token_has_id id) w.tokens) ≡ true

abbrev pub names : String → Option RefreshToken → Bool
names id none = false
names id (some t) = t.id == id

-- The token with this hash has this id.
unfoldable pub Hashes : String → String → World → Type 0
Hashes h id w = names id (find (has_hash h) w.tokens) ≡ true

revoke-inactive :
    (id k : String) (now : ℕ) (fs : List Family)
    → inactive (find (has_id id) fs) ≡ true
    → inactive (find (has_id id) (update (revocable k) (revoke now) fs)) ≡ true
unfolding family_is_active
revoke-inactive id k now [] h = ground arith
revoke-inactive id k now (f ∷ fs) h = ground (arith, revoke-inactive id k now fs)

add-inactive :
    (id : String) (f : Family) (w : World)
    → inactive (find (has_id id) w.families) ≡ true
    → find (has_id f.id) w.families ≡ none
    → inactive (find (has_id id) (f ∷ w.families)) ≡ true
add-inactive id f w h e = elim (Bool-cases (f.id == id)) [
  | inl p ↦ ground (arith, (eq_iff f.id id).0 p)
  | inr p ↦ rw p h
]

stamp-spent :
    (h k : String) (now : ℕ) (ss : List Session)
    → find (λ s. has_code h s && is_open s) ss ≡ none
    → find (λ s. has_code h s && is_open s) (update (λ t. has_code k t && is_open t) (stamp now) ss)
      ≡ none
stamp-spent h k now [] e = refl
stamp-spent h k now (s ∷ ss) e = ground (arith, stamp-spent h k now ss)

consume-used :
    (id : String) (q : RefreshToken → Bool) (now : ℕ) (ts : List RefreshToken)
    → was_used (find (token_has_id id) ts) ≡ true
    → was_used (find (token_has_id id) (update q (consume now) ts)) ≡ true
consume-used id q now [] h = ground arith
consume-used id q now (t ∷ ts) h = ground (arith, consume-used id q now ts)

consume-names :
    (h id : String) (q : RefreshToken → Bool) (now : ℕ) (ts : List RefreshToken)
    → names id (find (has_hash h) ts) ≡ true
    → names id (find (has_hash h) (update q (consume now) ts)) ≡ true
consume-names h id q now [] p = ground arith
consume-names h id q now (t ∷ ts) p = ground (arith, consume-names h id q now ts)

pub Dead-Closed : (id : String) → Closed (Dead id)
unfolding Dead consume_by_code_hash insert_family revoke_by_id insert_token consume_by_id
Dead-Closed id = record {
  frame = λ w v s f t h. rw⁻¹ f h;
  redeem = λ o h. record { apply = λ w p. ground arith };
  add_family = λ o f. record { apply = λ w p. ground (arith, eq_iff f.id id) };
  revoke_family =
      λ o k. record { apply = λ w p. ground (arith, revoke-inactive id k o.now w.families p) };
  add_token = λ o t. record { apply = λ w p. ground arith };
  consume_token = λ o k. record { apply = λ w p. ground arith };
}

pub Spent-Closed : (h : String) → Closed (Spent h)
unfolding Spent consume_by_code_hash insert_family revoke_by_id insert_token consume_by_id
Spent-Closed h = record {
  frame = λ w v s f t p. rw⁻¹ s p;
  redeem = λ o k. record { apply = λ w p. ground (arith, stamp-spent h k o.now w.sessions p) };
  add_family = λ o f. record { apply = λ w p. ground arith };
  revoke_family = λ o k. record { apply = λ w p. ground arith };
  add_token = λ o t. record { apply = λ w p. ground arith };
  consume_token = λ o k. record { apply = λ w p. ground arith };
}

pub Used-Closed : (id : String) → Closed (Used id)
unfolding Used consume_by_code_hash insert_family revoke_by_id insert_token consume_by_id
Used-Closed id = record {
  frame = λ w v s f t p. rw⁻¹ t p;
  redeem = λ o h. record { apply = λ w p. ground arith };
  add_family = λ o f. record { apply = λ w p. ground arith };
  revoke_family =
      λ o k. record { apply = λ w p. ground (arith, consume-used id (live_in k) o.now w.tokens p) };
  add_token = λ o t. record { apply = λ w p. ground (arith, eq_iff t.id id) };
  consume_token =
      λ o k. record { apply = λ w p. ground (arith, consume-used id (live k) o.now w.tokens p) };
}

pub Hashes-Closed : (h id : String) → Closed (Hashes h id)
unfolding Hashes consume_by_code_hash insert_family revoke_by_id insert_token consume_by_id
Hashes-Closed h id = record {
  frame = λ w v s f t p. rw⁻¹ t p;
  redeem = λ o k. record { apply = λ w p. ground arith };
  add_family = λ o f. record { apply = λ w p. ground arith };
  revoke_family = λ o k. record {
    apply = λ w p. ground (arith, consume-names h id (live_in k) o.now w.tokens p);
  };
  add_token = λ o t. record { apply = λ w p. ground (arith, eq_iff t.token_hash h) };
  consume_token =
      λ o k. record { apply = λ w p. ground (arith, consume-names h id (live k) o.now w.tokens p) };
}
