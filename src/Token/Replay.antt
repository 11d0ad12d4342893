-- ===== src/Token/Replay.antt =====
-- DPoP proofs in internal/services/token.go: a token is bound to the key that signed the proof, and
-- no proof is accepted twice.
use authserver.Common.{
  String, ℕ, ◌+◌, ◌-◌, ◌≤◌, ◌<◌, ◌⊎◌, Bool, true, false, some, ◌∷◌, ◌≡◌, ◌≢◌, refl, subst, arith,
  ◌==◌, eq_iff, Bool-cases, Option-cases, inl, inr, In, contains, contains_iff,
}
use authserver.Store.Monad.{World, Outside, M, ok, ◌>>◌, >>=-eq-ok, Run-cases, dpop_config, pure}
use authserver.Store.Revocations.{consume_jti, check_dpop_nonce}
use authserver.Token.Env.{Env, Proof, DpopConfig}
use authserver.Token.Dpop.{
  DpopResult, validate_proof, finish_proof, require_nonce_of, nanoseconds, duration_limit, age,
  is_stale, check_enabled, validate_with, validate_dpop, bind_dpop,
}
use authserver.Token.Redeemed.{reached}
use authserver.Token.Revoked.{succeeds}

-- The time of a proof is within its lifetime of now, or ahead by the range of a duration or more.
abbrev pub Timely : ℕ → ℕ → ℕ → Type 0
Timely lifetime now iat =
    ((nanoseconds iat ≤ now + lifetime) × (now ≤ nanoseconds iat + lifetime))
    ⊎ (now + duration_limit ≤ nanoseconds iat)

stale-Timely :
    (lifetime now iat : ℕ)
    → lifetime < duration_limit - 1
    → is_stale lifetime now iat ≡ false
    → Timely lifetime now iat
unfolding is_stale age
stale-Timely lifetime now iat short h = ground arith

-- The proof is the one of the request, its signature holds, and it names the key and the method.
pub record Proven (e : Env) (proof method jkt : String) (jti : String) (t : ℕ) : Type 0 where
  pub read : Proof
  pub parses : e.parse_proof proof ≡ some read
  pub holds : read.signature_holds ≡ true
  pub same_method : e.equal_fold read.htm method ≡ true
  pub key : read.jkt ≡ some jkt
  pub same_jti : read.jti ≡ jti
  pub fresh : is_stale t e.now read.iat ≡ false

validate_proof-ok :
    (e : Env) (proof method url nonce hash : String) (t : ℕ) (w u : World) (r : DpopResult)
    → validate_proof e proof method url nonce hash t w ≡ ok r u
    → (u ≡ w) × Proven e proof method r.jkt r.jti t
unfolding validate_proof finish_proof
validate_proof-ok e proof method url nonce hash t w u r h =
    elim (Option-cases (e.parse_proof proof)) [
      | inl p ↦ ground (arith, p, h)
      | inr (x, p) ↦ (
        ground (arith, p, h),
        record {
          read = x;
          parses = p;
          holds = ground (arith, p, h);
          same_method = ground (arith, p, h);
          key = ground (arith, p, h);
          same_jti = ground (arith, p, h);
          fresh = ground (arith, p, h);
        },
      )
    ]

consume_jti-ok :
    (o : Outside) (jti : String) (w u : World) (x : Unit {0})
    → consume_jti o jti w ≡ ok x u
    → (contains w.dpop_jtis jti ≡ false) × (u.dpop_jtis ≡ jti ∷ w.dpop_jtis)
unfolding consume_jti
consume_jti-ok o jti w u x h = ground arith

require_nonce_of-jtis :
    (e : Env) (cfg : DpopConfig) (r : DpopResult) (w u : World) (x : Unit {0})
    → require_nonce_of e cfg r w ≡ ok x u
    → u.dpop_jtis ≡ w.dpop_jtis
unfolding require_nonce_of check_dpop_nonce
require_nonce_of-jtis e cfg r w u x h = ground arith

pure-ok :
    {A B : Type 0} (m : M A) (b c : B) (w u : World)
    → (m >> pure b) w ≡ ok c u
    → (a : A) × (m w ≡ ok a u) × (b ≡ c)
pure-ok m b c w u h =
    let (a, v, p, q) = >>=-eq-ok m (λ _. pure b) w u c h in
    (a, ground (arith, p, q), ground (arith, q))

-- What a proof has shown when a token is bound to it, and what remains of it.
pub record Bound (e : Env) (lifetime : ℕ) (proof method jkt : String) (w u : World) : Type 0 where
  pub jti : String
  pub proven : Proven e proof method jkt jti lifetime
  pub fresh : contains w.dpop_jtis jti ≡ false
  pub recorded : u.dpop_jtis ≡ jti ∷ w.dpop_jtis

check_enabled-ok :
    (e : Env) (cfg : DpopConfig) (proof method url hash : String) (w u : World) (jkt : String)
    → cfg.enabled ≡ true
    → check_enabled e cfg proof method url hash w ≡ ok jkt u
    → Bound e cfg.proof_lifetime proof method jkt w u
unfolding check_enabled
check_enabled-ok e cfg proof method url hash w u jkt on h =
    let (r, x, a, b) =
      >>=-eq-ok (validate_proof e proof method url "" hash cfg.proof_lifetime) _ w u jkt
        (rw on at h) in
    let (_, y, c, d) = >>=-eq-ok (require_nonce_of e cfg r) _ x u jkt b in
    let (t, f, key) = pure-ok (consume_jti e.outside r.jti) r.jkt jkt y u d in
    let (same, proven) = validate_proof-ok e proof method url "" hash cfg.proof_lifetime w x r a in
    let jtis = require_nonce_of-jtis e cfg r x y tt c in
    let (new, kept) = consume_jti-ok e.outside r.jti y u t f in
    record {
      jti = r.jti;
      proven = subst (λ k. Proven e proof method k r.jti cfg.proof_lifetime) key proven;
      fresh = ground (arith, same, jtis, new);
      recorded = ground (arith, same, jtis, kept);
    }

validate_dpop-Bound :
    (e : Env) (cfg : DpopConfig) (proof method url : String) (w u : World) (jkt : String)
    → e.dpop ≡ some cfg
    → cfg.enabled ≡ true
    → validate_dpop e proof method url "" w ≡ ok jkt u
    → Bound e cfg.proof_lifetime proof method jkt w u
unfolding validate_dpop validate_with
validate_dpop-Bound e cfg proof method url w u jkt wired on h =
    check_enabled-ok e cfg proof method url "" w u jkt on (
      reached e.outside dpop_config (check_enabled e cfg proof method url "") w u jkt
        (subst (λ o. validate_with e o proof method url "" w ≡ ok jkt u) wired h))

bind_dpop-ok :
    (e : Env) (cfg : DpopConfig) (proof method url : String) (w u : World) (jkt : String)
    → e.dpop ≡ some cfg
    → cfg.enabled ≡ true
    → proof ≢ ""
    → bind_dpop e proof method url w ≡ ok jkt u
    → Bound e cfg.proof_lifetime proof method jkt w u
unfolding bind_dpop
bind_dpop-ok e cfg proof method url w u jkt wired on n h = elim (Bool-cases (proof == "")) [
  | inl p ↦ absurd (n ((eq_iff proof "").0 p))
  | inr p ↦ validate_dpop-Bound e cfg proof method url w u jkt wired on (rw p at h)
]

-- Where DPoP is enabled, with a lifetime below the range of a duration, binding a token to a proof
-- succeeds only with a proof that parses, whose signature holds and whose method is the request's;
-- the key is the proof's, its identifier was not recorded before and is recorded after. Its time is
-- within the lifetime of now, or ahead of now by 2 ^ 63 nanoseconds or more.
pub bind_dpop-Bound :
    (e : Env) (cfg : DpopConfig) (proof method url : String) (w u : World) (jkt : String)
    → e.dpop ≡ some cfg
    → cfg.enabled ≡ true
    → cfg.proof_lifetime < duration_limit - 1
    → proof ≢ ""
    → bind_dpop e proof method url w ≡ ok jkt u
    → (b : Bound e cfg.proof_lifetime proof method jkt w u) × Timely cfg.proof_lifetime e.now
        b.proven.read.iat
bind_dpop-Bound e cfg proof method url w u jkt wired on short n h =
    let b = bind_dpop-ok e cfg proof method url w u jkt wired on n h in
    (b, stale-Timely cfg.proof_lifetime e.now b.proven.read.iat short b.proven.fresh)

same_jti-of :
    (e : Env) (proof method other jkt key jti id : String) (t : ℕ)
    → Proven e proof method jkt jti t
    → Proven e proof other key id t
    → jti ≡ id
same_jti-of e proof method other jkt key jti id t a b =
    ground (arith, a.parses, b.parses, a.same_jti, b.same_jti)

-- A proof that a token has been bound to is refused later, in any state that still records what was
-- recorded then.
pub bind_dpop-once :
    (e : Env) (cfg : DpopConfig) (proof method other url to : String) (w u v : World) (jkt : String)
    → e.dpop ≡ some cfg
    → cfg.enabled ≡ true
    → proof ≢ ""
    → bind_dpop e proof method url w ≡ ok jkt u
    → ((s : String) → In s u.dpop_jtis → In s v.dpop_jtis)
    → succeeds (bind_dpop e proof other to v) ≡ false
bind_dpop-once e cfg proof method other url to w u v jkt wired on n h kept =
    let a = bind_dpop-ok e cfg proof method url w u jkt wired on n h in
    elim (Run-cases (bind_dpop e proof other to v)) [
      | inl (key, x, p) ↦
          let b = bind_dpop-ok e cfg proof other to v x key wired on n p in
          let same =
            same_jti-of e proof method other jkt key a.jti b.jti cfg.proof_lifetime a.proven
              b.proven in
          let held = kept a.jti (rw a.recorded (inl refl)) in
          absurd (true≢false ((contains_iff v.dpop_jtis b.jti).1 (rw same at held)) b.fresh)
      | inr (y, x, p) ↦ rw p refl
    ]
  where
    true≢false : {b : Bool} → b ≡ true → b ≢ false
    true≢false h k = ground (arith, h, k)
