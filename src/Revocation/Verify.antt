-- ===== src/Revocation/Verify.antt =====
-- `VerifyAccessToken` and `VerifyAccessTokenWithIssuer` of internal/crypto/jwt.go. The JOSE library
-- is the parameter that reads a compact token; a negative time claim is out of the model.
use authserver.Common.{
  String, ℕ, ◌+◌, Bool, true, false, Option, none, some, ◌==◌, ◌&&◌, not, ltb, eqb,
}
use authserver.Token.Env.{Claims}
use authserver.Token.Mint.{seconds}

-- A token that parses with a supported algorithm, as far as it is looked at.
pub record SignedToken : Type 0 where
  pub headers : ℕ
  pub typ : String
  pub key_is_known : Bool
  pub signature_holds : Bool
  pub claims : Claims

abbrev pub clock_skew : ℕ
clock_skew = 30

-- now < nbf - 30 in signed arithmetic: with unsigned numbers the skew is on the other side.
unfoldable pub times_fit : ℕ → Claims → Bool
times_fit now c =
    not (eqb c.expiry 0)
    && not (ltb (c.expiry + clock_skew) now)
    && not (eqb c.issued_at 0)
    && not (not (eqb c.not_before 0) && ltb (now + clock_skew) c.not_before)

unfoldable pub token_fits : ℕ → SignedToken → Bool
unfolding times_fit
token_fits now t =
    not (eqb t.headers 0)
    && t.typ == "at+jwt"
    && t.key_is_known
    && t.signature_holds
    && times_fit now t.claims

abbrev pub accept_if : Bool → Claims → Option Claims
accept_if true c = some c
accept_if false c = none

unfoldable pub verify_access_token : ℕ → Option SignedToken → Option Claims
unfolding token_fits
verify_access_token now none = none
verify_access_token now (some t) = accept_if (token_fits now t) t.claims

abbrev pub accept_issuer : String → Option Claims → Option Claims
accept_issuer expected none = none
accept_issuer expected (some c) = accept_if (c.issuer == expected) c

-- The clock counts nanoseconds.
unfoldable pub verify_access_token_with_issuer : ℕ → String → Option SignedToken → Option Claims
unfolding verify_access_token
verify_access_token_with_issuer now expected t =
    accept_issuer expected (verify_access_token (seconds now) t)
