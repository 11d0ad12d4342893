-- ===== src/Store/Monad.antt =====
-- The database and the monad of the services. A step ends with a value or an error, and in both
-- cases with the database as it then is: what was written before an error stays written, unless a
-- transaction takes it back.
use authserver.Common.{
  ap, ◌∙◌, String, ℕ, ◌+◌, Bool, true, false, List, ◌∷◌, ◌≡◌, refl, if◌then◌else◌, ◌⊎◌, inl, inr,
  subst, Option, none, some,
}
use authserver.Domain.Errors.{Error, internal}
use authserver.Domain.Entities.{Session, Family, RefreshToken, Issuance, MachineToken}
use authserver.Domain.Resources.{Resource}
use authserver.Domain.FrontingLinks.{FrontingLink}
use authserver.Domain.Consents.{ConsentGrant}

-- One call of a store or another port at one place of the services.
pub data Call : Type 0 where
  consume_code create_session get_session update_code : Call
  get_refresh_token get_family recheck_family family_by_session : Call
  create_family create_refresh_token consume_refresh_token revoke_family : Call
  track_jti revoke_by_family insert_issuance revoke_issuance : Call
  consume_dpop_jti validate_nonce begin_tx commit_tx : Call
  get_consent upsert_consent revoke_consent delete_session oauth_config get_client get_cimd_client :
      Call
  get_link list_links create_link update_link delete_link delete_links : Call
  get_resource resolve_resource list_resources create_resource update_resource : Call
  delete_resource get_provider : Call
  token_config dpop_config issuer signing_key sign revoke_machine_token build_jwks : Call

-- A row of `access_token_jtis`.
pub record TrackedJti : Type 0 where
  pub jti : String
  pub family_id : String
  pub expires_at : ℕ

-- Of an audit event, what it is about.
pub data AuditEvent : Type 0 where
  token_issued token_refreshed family_revoked_event : String → AuditEvent
  family_revocation_failed family_denylist_failed token_revoked : String → AuditEvent
  auth_code_reused : String → Bool → AuditEvent
  fronting_link_created : String → String → String → String → AuditEvent
  fronting_link_patched : String → String → String → String → AuditEvent
  fronting_link_deleted : String → String → String → AuditEvent
  resource_created resource_patched resource_deleted : String → String → AuditEvent
  resource_policy_changed : String → String → String → AuditEvent
  consent_granted : String → String → AuditEvent
  consent_denied : String → AuditEvent
  token_issue_denied token_refresh_denied : String → Error → AuditEvent

pub record World : Type 0 where
  pub sessions : List Session
  pub families : List Family
  pub tokens : List RefreshToken
  pub tracked : List TrackedJti
  pub denied : List String
  pub issuances : List Issuance
  pub dpop_jtis : List String
  pub dpop_nonces : List (String × ℕ)
  pub machine_tokens : List MachineToken
  pub resources : List Resource
  pub links : List FrontingLink
  pub consents : List ConsentGrant
  -- Ids of broker providers.
  pub providers : List String
  -- The clients that the authorization endpoint has warned of.
  pub ceiling_logged : List String
  pub audit : List AuditEvent
  -- How many random texts have been drawn.
  pub drawn : ℕ

-- What the services meet outside: which calls fail, the clock, and random texts.
pub record Outside : Type 0 where
  pub fails : Call → Bool
  pub now : ℕ
  pub random : ℕ → String

pub data Run (A : Type 0) : Type 0 where
  ok : A → World → Run A
  err : Error → World → Run A

abbrev pub M : Type 0 → Type 0
M A = World → Run A

infixl 5 ◌>>=◌ ◌>>◌
abbrev pub ◌>>=◌ : {A B : Type 0} → M A → (A → M B) → M B
◌>>=◌ m f w = elim (m w) [ ok a v ↦ f a v | err e v ↦ err e v ]

abbrev pub ◌>>◌ : {A B : Type 0} → M A → M B → M B
m >> k = m >>= λ _. k

abbrev pub final : {A : Type 0} → Run A → World
final (ok a w) = w
final (err e w) = w

abbrev pub pure : {A : Type 0} → A → M A
pure a w = ok a w

abbrev pub raise : {A : Type 0} → Error → M A
raise e w = err e w

abbrev pub require : Bool → Error → M (Unit {0})
require true e = pure tt
require false e = raise e

abbrev pub refuse_if : Option Error → M (Unit {0})
refuse_if none = pure tt
refuse_if (some e) = raise e

-- A call of a port that may fail: an error that wraps no sentinel.
abbrev pub reach : Outside → Call → M (Unit {0})
reach o c = require (if o.fails c then false else true) internal

abbrev pub record_event : AuditEvent → M (Unit {0})
record_event e w = ok tt (record w { audit = e ∷ w.audit })

-- `crypto.GenerateRandomString`.
abbrev pub draw : Outside → M String
draw o w = ok (o.random w.drawn) (record w { drawn = w.drawn + 1 })

pub Run-cases :
    {A : Type 0} (r : Run A)
    → ((a : A) × (u : World) × (r ≡ ok a u)) ⊎ ((e : Error) × (u : World) × (r ≡ err e u))
Run-cases (ok a u) = inl (a, u, refl)
Run-cases (err e u) = inr (e, u, refl)

-- Inversion of a successful bind, for proofs where the parts stay shut.
pub >>=-eq-ok :
    {A B : Type 0} (m : M A) (f : A → M B) (w v : World) (b : B)
    → (m >>= f) w ≡ ok b v
    → (a : A) × (u : World) × (m w ≡ ok a u) × (f a u ≡ ok b v)
>>=-eq-ok m f w v b h = elim (Run-cases (m w)) [
  | inl (a, u, e) ↦ (a, u, e, rw (e, ◌>>=◌) at h)
  | inr (e, u, q) ↦ cc (rw (q, ◌>>=◌) at h)
]

-- An error at another type.
abbrev relabel : {A B : Type 0} → Run B → Run A
relabel (ok b v) = err internal v
relabel (err x v) = err x v

-- Inversion of a failed bind.
pub >>=-eq-err :
    {A B : Type 0} (m : M A) (f : A → M B) (w u : World) (x : Error)
    → (m >>= f) w ≡ err x u
    → (m w ≡ err x u) ⊎ ((a : A) × (v : World) × (m w ≡ ok a v) × (f a v ≡ err x u))
>>=-eq-err m f w u x h = elim (Run-cases (m w)) [
  | inl (a, v, e) ↦ inr (a, v, e, rw (e, ◌>>=◌) at h)
  | inr (y, v, q) ↦ inl (q ∙ ap relabel (rw (q, ◌>>=◌) at h))
]

-- What a step keeps, whether it succeeds or fails.
pub record Keeps {A : Type 0} (P : World → Type 0) (m : M A) : Type 0 where
  pub apply : (w : World) → P w → P (final (m w))

pub >>=-Keeps :
    {A B : Type 0} {P : World → Type 0} {m : M A} {f : A → M B}
    → Keeps P m
    → ((a : A) → Keeps P (f a))
    → Keeps P (m >>= f)
>>=-Keeps {P} {m} {f} hm hf = record {
  apply = λ w h. elim (Run-cases (m w)) [
    | inl (a, u, e) ↦ rw (e, ◌>>=◌) ((hf a).apply u (subst (λ r. P (final r)) e (hm.apply w h)))
    | inr (e, u, q) ↦ rw (q, ◌>>=◌) (subst (λ r. P (final r)) q (hm.apply w h))
  ];
}

pub >>-Keeps :
    {A B : Type 0} {P : World → Type 0} {m : M A} {k : M B}
    → Keeps P m
    → Keeps P k
    → Keeps P (m >> k)
>>-Keeps hm hk = >>=-Keeps hm (λ _. hk)

module _ {P : World → Type 0} where
  pub pure-Keeps : {A : Type 0} (a : A) → Keeps P (pure a)
  pure-Keeps a = record { apply = λ w h. h }

  pub raise-Keeps : {A : Type 0} (e : Error) → Keeps {A = A} P (raise e)
  raise-Keeps e = record { apply = λ w h. h }

  pub require-Keeps : (b : Bool) (e : Error) → Keeps P (require b e)
  require-Keeps true e = pure-Keeps tt
  require-Keeps false e = raise-Keeps e

  pub reach-Keeps : (o : Outside) (c : Call) → Keeps P (reach o c)
  reach-Keeps o c = require-Keeps (if o.fails c then false else true) internal
