-- ===== src/Token/Dpop.antt =====
-- internal/crypto/dpop.go `ValidateProof` and `validateDPoP` of internal/services/token.go: DPoP
-- proofs. The claims are read from `parse_proof`; a negative `iat` is out of the model.
use authserver.Common.{
  String, ℕ, ◌-◌, ◌*◌, ◌^◌, leb, Bool, true, false, Option, none, some, ◌==◌, ◌&&◌, ◌||◌, not, ltb,
  eqb, if◌then◌else◌,
}
use authserver.Domain.Errors.{Error, dpop_invalid_proof, dpop_nonce_required, dpop_nonce_mismatch}
use authserver.Store.Monad.{
  refuse_if, M, ok, err, ◌>>=◌, ◌>>◌, pure, raise, require, reach, dpop_config,
}
use authserver.Store.Revocations.{consume_jti, check_dpop_nonce}
use authserver.Token.Env.{Env, Url, Proof, DpopConfig}

pub record DpopResult : Type 0 where
  pub jkt : String
  pub jti : String
  pub nonce : String

-- The wall clock counts nanoseconds, `iat` seconds.
abbrev pub nanoseconds : ℕ → ℕ
nanoseconds s = s * 1000000000

-- Bounds of `time.Duration`: from -2 ^ 63 to 2 ^ 63 - 1 nanoseconds.
abbrev pub duration_limit : ℕ
duration_limit = 2 ^ 63

-- Seconds of the epoch on the internal scale of `time.Time`, which starts in the year 1.
abbrev pub unix_to_internal : ℕ
unix_to_internal = 62135596800

-- The size of `now.Sub(iat)`, once `-diff` has been taken of one below zero. A difference out of the
-- bounds of a duration is one of the bounds; there is none for the lower bound, which is its own
-- negation and so stays below every lifetime. An `iat` whose seconds wrap around lies in the past.
unfoldable pub age : ℕ → ℕ → Option ℕ
age now iat =
    if leb (duration_limit - unix_to_internal) iat
    then some (duration_limit - 1)
    else if ltb now (nanoseconds iat)
    then (if ltb (nanoseconds iat - now) duration_limit then some (nanoseconds iat - now) else none)
    else if ltb (now - nanoseconds iat) duration_limit
    then some (now - nanoseconds iat)
    else some (duration_limit - 1)

abbrev pub exceeds : ℕ → Option ℕ → Bool
exceeds lifetime none = false
exceeds lifetime (some d) = ltb lifetime d

unfoldable pub is_stale : ℕ → ℕ → ℕ → Bool
unfolding age
is_stale lifetime now iat = exceeds lifetime (age now iat)

unfoldable pub same_target : Env → Option Url → Option Url → Bool
same_target e (some h) (some r) =
    e.equal_fold h.scheme r.scheme && e.equal_fold h.host r.host && h.path == r.path
same_target e _ _ = false

-- The nonce rule of `ValidateProof`, with an optional nonce of the server's.
abbrev pub check_server_nonce : String → String → Option Error
check_server_nonce server n =
    if server == ""
    then none
    else if n == ""
    then some dpop_nonce_required
    else if n == server
    then none
    else some dpop_nonce_mismatch

abbrev pub check_hash : String → String → Bool
check_hash expected ath = expected == "" || (not (ath == "") && ath == expected)

unfoldable pub finish_proof : Proof → Option String → M DpopResult
finish_proof p none = raise dpop_invalid_proof
finish_proof p (some jkt) = pure (record { jkt = jkt; jti = p.jti; nonce = p.nonce })

abbrev pub has : {A : Type 0} → Option A → Bool
has none = false
has (some a) = true

abbrev pub parsed : Option Proof → M Proof
parsed none = raise dpop_invalid_proof
parsed (some p) = pure p

unfoldable pub validate_proof : Env → String → String → String → String → String → ℕ → M DpopResult
unfolding same_target finish_proof
validate_proof e proof method req_url server_nonce token_hash lifetime = do
  p ← parsed (e.parse_proof proof)
  require (eqb p.headers 1) dpop_invalid_proof
  require (e.equal_fold p.typ "dpop+jwt") dpop_invalid_proof
  require (has p.jkt) dpop_invalid_proof
  require p.signature_holds dpop_invalid_proof
  require (not (p.jti == "")) dpop_invalid_proof
  require (e.equal_fold p.htm method) dpop_invalid_proof
  require (same_target e (e.parse_url p.htu) (e.parse_url req_url)) dpop_invalid_proof
  require (not (eqb p.iat 0)) dpop_invalid_proof
  require (not (is_stale lifetime e.now p.iat)) dpop_invalid_proof
  refuse_if (check_server_nonce server_nonce p.nonce)
  require (check_hash token_hash p.ath) dpop_invalid_proof
  finish_proof p p.jkt

-- The service's own nonce rule: any failure of the nonce store reads as a mismatch.
unfoldable pub require_nonce_of : Env → DpopConfig → DpopResult → M (Unit {0})
require_nonce_of e cfg r =
    if cfg.require_nonce
    then (if r.nonce == "" then raise dpop_nonce_required else λ w.
        elim (check_dpop_nonce e.outside r.nonce w) [
          | ok a v ↦ ok tt v
          | err x v ↦ err dpop_nonce_mismatch v
        ])
    else pure tt

unfoldable pub check_enabled : Env → DpopConfig → String → String → String → String → M String
unfolding require_nonce_of
check_enabled e cfg proof method req_url token_hash =
    if cfg.enabled
    then (do
      r ← validate_proof e proof method req_url "" token_hash cfg.proof_lifetime
      require_nonce_of e cfg r
      consume_jti e.outside r.jti
      pure r.jkt)
    else pure ""

unfoldable pub validate_with :
    Env → Option DpopConfig → String → String → String → String → M String
unfolding check_enabled
validate_with e none proof method req_url token_hash = pure ""
validate_with e (some cfg) proof method req_url token_hash = do
  reach e.outside dpop_config
  check_enabled e cfg proof method req_url token_hash

unfoldable pub validate_dpop : Env → String → String → String → String → M String
unfolding validate_with
validate_dpop e proof method req_url token_hash =
    validate_with e e.dpop proof method req_url token_hash

-- A request without a proof gets an unbound token.
unfoldable pub bind_dpop : Env → String → String → String → M String
bind_dpop e proof method req_url =
    if proof == "" then pure "" else validate_dpop e proof method req_url ""
