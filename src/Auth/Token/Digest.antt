-- ===== src/Auth/Token/Digest.antt =====
-- The form of the fingerprints that CertFingerprint computes.
use cc_mysub.Base.{
  ℕ, ◌*◌, ◌<◌, ◌/◌, ◌%◌, Bytes, true, ◌≡◌, refl, ==_iff, length, all_bytes, All, [], ◌∷◌, arith,
}
use cc_mysub.Auth.Token.{
  Sha256, hex_digit, hex_encode, is_lower_hex, canonical_fingerprint, cert_fingerprint,
}

hex_digit-is_lower_hex : (n : ℕ) → n < 16 → is_lower_hex (hex_digit n) ≡ true
unfolding hex_digit
hex_digit-is_lower_hex n h = ground arith

hex_digit-injective : (m n : ℕ) → m < 16 → n < 16 → hex_digit m ≡ hex_digit n → m ≡ n
unfolding hex_digit
hex_digit-injective m n hm hn e = ground arith

length-hex_encode : (s : Bytes) → length (hex_encode s) ≡ 2 * length s
unfolding hex_encode
length-hex_encode [] = refl
length-hex_encode (b ∷ s) = omega (arith, length-hex_encode s)

hex_encode-is_lower_hex :
    (s : Bytes) → All (λ b. b < 256) s → all_bytes is_lower_hex (hex_encode s) ≡ true
unfolding hex_encode
hex_encode-is_lower_hex [] h = refl
hex_encode-is_lower_hex (b ∷ s) h = rw (
  hex_digit-is_lower_hex (b / 16) (omega arith),
  hex_digit-is_lower_hex (b % 16) (omega arith),
  hex_encode-is_lower_hex s h.1,
)

-- Two lists of bytes with the same hexadecimal text are the same.
pub hex_encode-injective :
    (s t : Bytes)
    → All (λ b. b < 256) s
    → All (λ b. b < 256) t
    → hex_encode s ≡ hex_encode t
    → s ≡ t
unfolding hex_encode
hex_encode-injective [] [] hs ht e = refl
hex_encode-injective [] (c ∷ t) hs ht e = cc
hex_encode-injective (b ∷ s) [] hs ht e = cc
hex_encode-injective (b ∷ s) (c ∷ t) hs ht e = ground (
  arith,
  hex_digit-injective (b / 16) (c / 16),
  hex_digit-injective (b % 16) (c % 16),
  hex_encode-injective s t hs.1 ht.1,
)

pub cert_fingerprint-canonical :
    (h : Sha256) (der : Bytes) → canonical_fingerprint (cert_fingerprint h der) ≡ true
unfolding canonical_fingerprint cert_fingerprint
cert_fingerprint-canonical h der = rw (
  (==_iff (length (hex_encode (h.sum der))) 64).1
      (omega (arith, length-hex_encode (h.sum der), h.length-sum der)),
  hex_encode-is_lower_hex (h.sum der) (h.sum_bytes der),
)
