-- ===== src/Auth/Token.antt =====
-- internal/auth/token.go. SHA-256 is a parameter with its documented output form.
pub mod Digest
use cc_mysub.Base.{
  ℕ, ◌-◌, ◌+◌, ◌/◌, ◌%◌, ◌<◌, Bytes, codes, Bool, ◌&&◌, ◌||◌, not, ◌≡◌, leb, ltb, ◌==◌, length,
  all_bytes, All, List, [], ◌∷◌, if◌then◌else◌, has_prefix, drop, all_space,
}
use cc_mysub.Http.{Header, get, authorization, x_api_key}

-- crypto/sha256: 32 bytes.
pub record Sha256 : Type 0 where
  pub sum : Bytes → Bytes
  pub length-sum : (m : Bytes) → length (sum m) ≡ 32
  pub sum_bytes : (m : Bytes) → All (λ b. b < 256) (sum m)

-- encoding/hex, in lower case.
hex_digit : ℕ → ℕ
hex_digit n = if ltb n 10 then b'0' + n else b'a' + (n - 10)

unfoldable pub hex_encode : Bytes → Bytes
unfolding hex_digit
hex_encode [] = []
hex_encode (b ∷ s) = hex_digit (b / 16) ∷ hex_digit (b % 16) ∷ hex_encode s

abbrev pub is_lower_hex : ℕ → Bool
is_lower_hex c = (leb b'0' c && leb c b'9') || (leb b'a' c && leb c b'f')

-- fingerprintRE, ^[0-9a-f]{64}$.
unfoldable pub canonical_fingerprint : Bytes → Bool
canonical_fingerprint s = length s == 64 && all_bytes is_lower_hex s

unfoldable pub cert_fingerprint : Sha256 → Bytes → Bytes
unfolding hex_encode
cert_fingerprint h der = hex_encode (h.sum der)

abbrev pub bearer : Bytes
bearer = codes "Bearer "

unfoldable pub has_inbound_credential : Header → Bool
unfolding get has_prefix all_space
has_inbound_credential h =
    let a = get h authorization in
    (has_prefix a bearer && not (all_space (drop (length bearer) a)))
    || not (all_space (get h x_api_key))
