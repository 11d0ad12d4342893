-- ===== src/Revocation/Laws.antt =====
-- What the revocation endpoint of internal/services/revocation.go promises.
use authserver.Common.{
  String, ℕ, List, [], ◌∷◌, not, Bool, true, false, some, ◌==◌, ◌≡◌, refl, arith, Bool-cases, inl,
  inr, eq_iff, ◌∙◌, subst, sym, ap, ◌↔◌, ◌⊎◌, ◌≢◌, none, Option-cases,
}
use authserver.Domain.Clients.{Client, is_public, active, is_active-status}
use authserver.Domain.Entities.{Family, RefreshToken}
use authserver.Store.Table.{find, update}
use authserver.Store.Monad.{World, Run, ok, err, final, Run-cases, get_family, get_refresh_token}
use authserver.Store.Tokens.{
  get, get_by_hash, revoke_by_id, has_id, has_hash, revocable, revoke, consume, live_in,
}
use authserver.Store.Revocations.{deny_by_family, deny_family, revoke_machine}
use authserver.Token.Env.{Env, audited}
use authserver.Token.Frames
use authserver.Token.Frames.{Framed}
use authserver.Token.Rotation.{get-ok}
use authserver.Token.Revoked.{succeeds}
use authserver.Token.Punishment.{Punished, Punished-intro, Working}
use authserver.Revocation.Service.{
  RevokeRequest, Revoker, attempt, revoke_claimed, try_revoke_machine_token, Standing, welcome,
  refused, ignored, standing, standing_of, revoke_owned, revoke_of, revoke_found, revoke_welcome,
  revoke_token,
}

-- The refresh token of a request and its family are stored, and the family is the client's.
pub record Owned (r : Revoker) (req : RevokeRequest) (w : World) : Type 0 where
  pub token : RefreshToken
  pub stored : find (has_hash (r.env.hash req.token)) w.tokens ≡ some token
  pub family : Family
  pub held : find (has_id token.family_id) w.families ≡ some family
  pub owns : (family.client_id == req.client_id) ≡ true

revoke_owned-effect :
    (r : Revoker) (id : String) (w : World)
    → Working r.env
    → ((final (revoke_owned r id w)).families ≡ update (revocable id) (revoke r.env.now) w.families)
      × ((final (revoke_owned r id w)).tokens ≡ update (live_in id) (consume r.env.now) w.tokens)
      × ((final (revoke_owned r id w)).denied ≡ deny_family id w.tracked w.denied)
unfolding revoke_owned revoke_by_id deny_by_family audited
revoke_owned-effect r id w g = ground (arith, g.revokes, g.denies, g.wired)

revoke_owned-ok :
    (r : Revoker) (id : String) (w : World)
    → revoke_owned r id w ≡ ok tt (final (revoke_owned r id w))
unfolding revoke_owned
revoke_owned-ok r id w = refl

revoke_owned-Punished :
    (r : Revoker) (id : String) (f : Family) (w : World)
    → Working r.env
    → find (has_id id) w.families ≡ some f
    → Punished id w (final (revoke_owned r id w))
revoke_owned-Punished r id f w g h =
    let (a, b, c) = revoke_owned-effect r id w g in
    Punished-intro r.env.now id f w (final (revoke_owned r id w)) h a b c

found-Owned :
    (r : Revoker) (req : RevokeRequest) (w : World) (o : Owned r req w)
    → r.env.fails get_refresh_token ≡ false
    → r.env.fails get_family ≡ false
    → revoke_found r req (get_by_hash r.env.outside (r.env.hash req.token) w)
      ≡ revoke_owned r o.token.family_id w
unfolding revoke_found revoke_of get get_by_hash
found-Owned r req w o a b = rw (a, o.stored, b, o.held, o.owns) refl

-- A client in standing that revokes a refresh token of its own gets no error, and the whole family
-- is revoked with its refresh tokens and tracked access tokens, where no store fails and the
-- denylist is wired.
pub revoke_token-Punished :
    (r : Revoker) (req : RevokeRequest) (w : World) (o : Owned r req w)
    → Working r.env
    → r.env.fails get_refresh_token ≡ false
    → r.env.fails get_family ≡ false
    → standing r.env req (r.env.client req.client_id) ≡ welcome
    → (z : World) × (revoke_token r req w ≡ ok tt z) × Punished o.token.family_id w z
unfolding revoke_token revoke_welcome
revoke_token-Punished r req w o g a b s =
    let id = o.token.family_id in
    (
      final (revoke_owned r id w),
      rw s (found-Owned r req w o a b ∙ revoke_owned-ok r id w),
      revoke_owned-Punished r id o.family w g o.held,
    )

abbrev is_refused : Standing → Bool
is_refused refused = true
is_refused _ = false

found-succeeds :
    (r : Revoker) (req : RevokeRequest) (x : Run RefreshToken)
    → succeeds (revoke_found r req x) ≡ true
unfolding revoke_found revoke_of try_revoke_machine_token revoke_owned attempt
found-succeeds r req x = ground arith

welcome-succeeds :
    (r : Revoker) (req : RevokeRequest) (w : World) (s : Standing)
    → succeeds (revoke_welcome r req s w) ≡ not (is_refused s)
unfolding revoke_welcome
welcome-succeeds r req w refused = refl
welcome-succeeds r req w ignored = refl
welcome-succeeds r req w welcome =
    found-succeeds r req (get_by_hash r.env.outside (r.env.hash req.token) w)

-- A public client, or an active one that shows its secret.
abbrev pub Answered : Env → Client → String → Type 0
Answered e c secret =
    (c.secret_hash ≡ "")
    ⊎ ((secret ≢ "") × (e.secret_matches c.secret_hash secret ≡ true) × (c.status ≡ active))

standing_of_iff :
    (e : Env) (c : Client) (secret : String)
    → (not (is_refused (standing_of e c secret)) ≡ true) ↔ Answered e c secret
unfolding standing_of is_public
standing_of_iff e c secret =
    ground (arith, is_active-status c, eq_iff c.secret_hash "", eq_iff secret "")

standing-refused :
    (e : Env) (req : RevokeRequest)
    → e.client req.client_id ≡ none
    → not (is_refused (standing e req (e.client req.client_id))) ≢ true
unfolding standing
standing-refused e req h k = ground (arith, h, k)

standing-known :
    (e : Env) (req : RevokeRequest) (c : Client)
    → e.client req.client_id ≡ some c
    → standing e req (e.client req.client_id) ≡ standing_of e c req.client_secret
unfolding standing
standing-known e req c h = rw h refl

-- The endpoint answers without an error exactly when the client is registered and is either public,
-- active or not, or active and shows its secret; the token and the failures of the stores of tokens
-- make no difference.
pub revoke_token-succeeds :
    (r : Revoker) (req : RevokeRequest) (w : World)
    → (succeeds (revoke_token r req w) ≡ true)
      ↔ ((c : Client) × (r.env.client req.client_id ≡ some c) × Answered r.env c req.client_secret)
unfolding revoke_token
revoke_token-succeeds r req w = (
  λ h. elim (Option-cases (r.env.client req.client_id)) [
    | inl p ↦ absurd (standing-refused r.env req p (sym (same w) ∙ h))
    | inr (c, p) ↦
        (c, p, (standing_of_iff r.env c req.client_secret).0 (sym (known c p) ∙ sym (same w) ∙ h))
  ],
  λ (c, p, k). same w ∙ known c p ∙ (standing_of_iff r.env c req.client_secret).1 k,
)
  where
    same :
        (w : World)
        → succeeds (revoke_welcome r req (standing r.env req (r.env.client req.client_id)) w)
          ≡ not (is_refused (standing r.env req (r.env.client req.client_id)))
    same w = welcome-succeeds r req w (standing r.env req (r.env.client req.client_id))

    known :
        (c : Client)
        → r.env.client req.client_id ≡ some c
        → not (is_refused (standing r.env req (r.env.client req.client_id)))
          ≡ not (is_refused (standing_of r.env c req.client_secret))
    known c p = ap (λ s. not (is_refused s)) (standing-known r.env req c p)

revoke-others :
    (id k : String) (now : ℕ) (f : Family) (fs : List Family)
    → (k == id) ≡ false
    → find (has_id id) fs ≡ some f
    → find (has_id id) (update (revocable k) (revoke now) fs) ≡ some f
revoke-others id k now f [] n h = ground arith
revoke-others id k now f (g ∷ fs) n h =
    ground (arith, revoke-others id k now f fs n, eq_iff g.id id, eq_iff g.id k, eq_iff k id)

revoke_owned-others :
    (r : Revoker) (id k : String) (f : Family) (w : World)
    → (k == id) ≡ false
    → find (has_id id) w.families ≡ some f
    → find (has_id id) (final (revoke_owned r k w)).families ≡ some f
unfolding revoke_owned revoke_by_id deny_by_family audited
revoke_owned-others r id k f w n h = ground (arith, revoke-others id k r.env.now f w.families n h)

other_client :
    (req : RevokeRequest) (id k : String) (f g : Family) (w : World)
    → (f.client_id == req.client_id) ≡ false
    → (g.client_id == req.client_id) ≡ true
    → find (has_id id) w.families ≡ some f
    → find (has_id k) w.families ≡ some g
    → (k == id) ≡ false
other_client req id k f g w a b h l = elim (Bool-cases (k == id)) [
  | inl p ↦ ground (arith, a, b, h, l, (eq_iff k id).0 p)
  | inr p ↦ p
]

revoke_of-others :
    (r : Revoker) (req : RevokeRequest) (id k : String) (f : Family) (w : World)
    → (f.client_id == req.client_id) ≡ false
    → find (has_id id) w.families ≡ some f
    → find (has_id id) (final (revoke_of r req k (get r.env.outside get_family k w))).families
      ≡ some f
unfolding revoke_of get
revoke_of-others r req id k f w n h = elim (Run-cases (get r.env.outside get_family k w)) [
  | inl (g, v, p) ↦
      let (same, q) = get-ok r.env.outside get_family k w v g p in
      elim (Bool-cases (g.client_id == req.client_id)) [
        | inl c ↦
            rw (p, c)
              (revoke_owned-others r id k f v (other_client req id k f g w n c h q) (rw same h))
        | inr c ↦ rw (p, c, same) h
      ]
  | inr (x, v, p) ↦ rw p (subst (λ s. find (has_id id) (final s).families ≡ some f) p (framed h))
]
  where
    framed :
        find (has_id id) w.families ≡ some f
        → find (has_id id) (final (get r.env.outside get_family k w)).families ≡ some f
    framed q = rw⁻¹ (Frames.get-Framed r.env.outside get_family k w).1 q

machine-Framed : (r : Revoker) (req : RevokeRequest) → Framed (try_revoke_machine_token r req)
unfolding try_revoke_machine_token revoke_claimed revoke_machine audited
machine-Framed r req w = ground arith

revoke_found-others :
    (r : Revoker) (req : RevokeRequest) (id : String) (f : Family) (x : Run RefreshToken)
    → (f.client_id == req.client_id) ≡ false
    → find (has_id id) (final x).families ≡ some f
    → find (has_id id) (final (revoke_found r req x)).families ≡ some f
unfolding revoke_found
revoke_found-others r req id f (ok t v) n h = revoke_of-others r req id t.family_id f v n h
revoke_found-others r req id f (err x v) n h = rw⁻¹ (machine-Framed r req v).1 h

welcome-others :
    (r : Revoker) (req : RevokeRequest) (id : String) (f : Family) (w : World) (s : Standing)
    → (f.client_id == req.client_id) ≡ false
    → find (has_id id) w.families ≡ some f
    → find (has_id id) (final (revoke_welcome r req s w)).families ≡ some f
unfolding revoke_welcome
welcome-others r req id f w refused n h = h
welcome-others r req id f w ignored n h = h
welcome-others r req id f w welcome n h =
    let hash = r.env.hash req.token in
    revoke_found-others r req id f (get_by_hash r.env.outside hash w) n
      (rw⁻¹ (Frames.get_by_hash-Framed r.env.outside hash w).1 h)

-- Whatever a client sends, a family of another client is left as it is.
pub revoke_token-others :
    (r : Revoker) (req : RevokeRequest) (id : String) (f : Family) (w : World)
    → (f.client_id == req.client_id) ≡ false
    → find (has_id id) w.families ≡ some f
    → find (has_id id) (final (revoke_token r req w)).families ≡ some f
unfolding revoke_token
revoke_token-others r req id f w n h =
    welcome-others r req id f w (standing r.env req (r.env.client req.client_id)) n h
