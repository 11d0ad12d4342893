-- ===== src/Pkce.antt =====
-- internal/crypto/pkce.go: verification of a PKCE code verifier. SHA-256 with base64url is the
-- parameter `s256`, and the comparison in constant time is an equality test.
mod Tests
use Prim.Native.String
use authserver.Common.{
  String, ℕ, Bool, true, false, ◌&&◌, ◌||◌, ◌==◌, Char, code, leb, ltb, eqb, if◌then◌else◌, ◌≡◌,
  ◌≢◌, ◌↔◌, ◌≤◌, eq_iff, arith, refl,
}

pub data PkceResult : Type 0 where
  verified verifier_missing bad_length bad_characters challenge_missing mismatch : PkceResult

-- `[A-Za-z0-9\-._~]`.
is_unreserved : ℕ → Bool
is_unreserved c =
    (leb b'A' c && leb c b'Z')
    || (leb b'a' c && leb c b'z')
    || (leb b'0' c && leb c b'9')
    || eqb c b'-'
    || eqb c b'.'
    || eqb c b'_'
    || eqb c b'~'

pub all_unreserved : String → Bool
all_unreserved String.[] = true
all_unreserved (String.◌∷◌ c s) = is_unreserved (code c) && all_unreserved s

abbrev pub min_verifier_length : ℕ
min_verifier_length = 43

abbrev pub max_verifier_length : ℕ
max_verifier_length = 128

-- The pattern asks for one character at least; the empty verifier is refused before it.
unfoldable pub verify_s256 : (String → String) → String → String → PkceResult
unfolding all_unreserved is_unreserved
verify_s256 s256 verifier challenge =
    if verifier == ""
    then verifier_missing
    else if ltb (String.len verifier) min_verifier_length
        || ltb max_verifier_length (String.len verifier)
    then bad_length
    else if all_unreserved verifier
    then (if challenge == ""
        then challenge_missing
        else if s256 verifier == challenge
        then verified
        else mismatch)
    else bad_characters

abbrev pub is_verified : PkceResult → Bool
is_verified verified = true
is_verified _ = false

-- `ValidateChallengeMethod`.
unfoldable pub is_valid_challenge_method : String → Bool
is_valid_challenge_method method = method == "S256"

len-empty : (s : String) → s ≡ "" → String.len s ≡ 0
len-empty s h = rw h refl

-- A code verifier is accepted exactly when it has 43 to 128 characters, all of them unreserved, and
-- the challenge is set and is the verifier's.
pub verify_s256_iff :
    (s256 : String → String) (verifier challenge : String)
    → (is_verified (verify_s256 s256 verifier challenge) ≡ true) ↔ (
        (min_verifier_length ≤ String.len verifier)
        × (String.len verifier ≤ max_verifier_length)
        × (all_unreserved verifier ≡ true)
        × (challenge ≢ "")
        × (s256 verifier ≡ challenge))
unfolding verify_s256
verify_s256_iff s256 verifier challenge = ground (
  arith,
  len-empty verifier,
  eq_iff verifier "",
  eq_iff challenge "",
  eq_iff (s256 verifier) challenge,
)
