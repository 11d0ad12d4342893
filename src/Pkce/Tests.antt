-- ===== src/Pkce/Tests.antt =====
-- A code verifier of 52 letters, with the identity in place of SHA-256.
use Prim.Native.String
use authserver.Common.{String, true, ◌≡◌, ◌≢◌, ◌↔◌, ◌≤◌}
use authserver.Pkce.{
  is_verified, verify_s256, min_verifier_length, max_verifier_length, all_unreserved,
  verify_s256_iff,
}

abbrev verifier : String
verifier = "abcdefghijklmnopqrstuvwxyzabcdefghijklmnopqrstuvwxyz"

verify_s256_iff_example : (is_verified (verify_s256 (λ s. s) verifier verifier) ≡ true) ↔ (
    (min_verifier_length ≤ String.len verifier)
    × (String.len verifier ≤ max_verifier_length)
    × (all_unreserved verifier ≡ true)
    × (verifier ≢ "")
    × (verifier ≡ verifier))
verify_s256_iff_example = verify_s256_iff (λ s. s) verifier verifier
