-- ===== src/Enroll/Fingerprint.antt =====
-- The fingerprint that resolveFingerprint of internal/enroll/enroll.go gives.
use cc_mysub.Base.{
  Bytes, trim_space, is_empty, true, Bool-cases, ok, Option, none, some, ◌≡◌, inl, inr, subst,
}
use cc_mysub.Auth.Token.{Sha256, canonical_fingerprint, cert_fingerprint}
use cc_mysub.Auth.Token.Digest.{cert_fingerprint-canonical}
use cc_mysub.Enroll.{
  File, absent, unreadable, content, resolve_fingerprint, flag_fingerprint, file_fingerprint,
  pem_fingerprint, to_lower,
}

flag_fingerprint-canonical :
    (s fp : Bytes) → flag_fingerprint s ≡ ok fp → canonical_fingerprint fp ≡ true
unfolding flag_fingerprint
flag_fingerprint-canonical s fp h = elim (Bool-cases (canonical_fingerprint s)) [
  | inl e ↦ let same : s ≡ fp = cc (rw e at h) in subst (λ x. canonical_fingerprint x ≡ true) same e
  | inr e ↦ cc (rw e at h)
]

pem_fingerprint-canonical :
    (sha : Sha256) (o : Option Bytes) (fp : Bytes)
    → pem_fingerprint sha o ≡ ok fp
    → canonical_fingerprint fp ≡ true
unfolding pem_fingerprint
pem_fingerprint-canonical sha none fp h = cc
pem_fingerprint-canonical sha (some der) fp h =
    let same : cert_fingerprint sha der ≡ fp = cc in
    subst (λ x. canonical_fingerprint x ≡ true) same (cert_fingerprint-canonical sha der)

file_fingerprint-canonical :
    (sha : Sha256) (pem_decode : Bytes → Option Bytes) (f : File) (fp : Bytes)
    → file_fingerprint sha pem_decode f ≡ ok fp
    → canonical_fingerprint fp ≡ true
unfolding file_fingerprint
file_fingerprint-canonical sha pem_decode absent fp h = cc
file_fingerprint-canonical sha pem_decode unreadable fp h = cc
file_fingerprint-canonical sha pem_decode (content b) fp h =
    pem_fingerprint-canonical sha (pem_decode b) fp h

-- The fingerprint that resolveFingerprint gives, from --fingerprint or from the file of --client-cert,
-- is canonical.
pub resolve_fingerprint-canonical :
    (sha : Sha256) (pem_decode : Bytes → Option Bytes) (flag path : Bytes) (f : File) (fp : Bytes)
    → resolve_fingerprint sha pem_decode flag path f ≡ ok fp
    → canonical_fingerprint fp ≡ true
unfolding resolve_fingerprint
resolve_fingerprint-canonical sha pem_decode flag path f fp h = elim (Bool-cases (is_empty flag)) [
  | inr e ↦ flag_fingerprint-canonical (to_lower (trim_space flag)) fp (rw e at h)
  | inl e ↦ elim (Bool-cases (is_empty path)) [
    | inl k ↦ cc (rw (e, k) at h)
    | inr k ↦ file_fingerprint-canonical sha pem_decode f fp (rw (e, k) at h)
  ]
]
