-- ===== src/Mitm.antt =====
-- internal/mitm/mint.go: certificates for the hosts of CONNECT, signed on demand and kept for a while.
-- x509.CreateCertificate with the key and the serial number is a parameter. Times are nanoseconds, and
-- the lock makes each call of CertFor one step.
pub mod Cache
pub mod Authority
use cc_mysub.Base.{
  ℕ, ◌+◌, ◌-◌, Bytes, Bool, ltb, is_empty, Result, ok, err, Dict, lookup, insert, Option, none,
  some, List, [], ◌∷◌, ◌≡◌, if◌then◌else◌,
}

abbrev pub minute : ℕ
minute = 60_000_000_000

-- What the template fixes.
pub record Template : Type 0 where
  pub common_name : Bytes
  pub dns_names : List Bytes
  pub not_before : ℕ
  pub not_after : ℕ
  pub is_ca : Bool

pub record Cert : Type 0 where
  pub der : Bytes
  pub leaf : Template

-- The signed certificate says what its template says; `none` where a step of it fails.
pub record Signer : Type 0 where
  pub sign : Template → Option Cert
  pub sign-leaf : (t : Template) (c : Cert) → sign t ≡ some c → c.leaf ≡ t

pub record Entry : Type 0 where
  pub cert : Cert
  pub expiry : ℕ

pub record Minter : Type 0 where
  pub ttl : ℕ
  pub cache : Dict Entry

abbrev pub new_minter : ℕ → Minter
new_minter ttl = record { ttl = ttl; cache = [] }

pub data Error : Type 0 where
  empty_host sign_failed : Error

abbrev pub template : ℕ → Bytes → ℕ → Template
template ttl host now = record {
  common_name = host;
  dns_names = host ∷ [];
  not_before = now - minute;
  not_after = now + (ttl + minute);
  is_ca = Bool.false;
}

unfoldable pub mint : Signer → ℕ → Bytes → ℕ → Option Cert
mint signer ttl host now = signer.sign (template ttl host now)

stored : Minter → Bytes → ℕ → Option Cert → Minter × Result Error Cert
unfolding insert
stored m host now none = (m, err sign_failed)
stored m host now (some c) =
    (record m { cache = insert host (record { cert = c; expiry = now + m.ttl }) m.cache }, ok c)

cached : Signer → Minter → Bytes → ℕ → Option Entry → Minter × Result Error Cert
unfolding stored mint
cached signer m host now none = stored m host now (mint signer m.ttl host now)
cached signer m host now (some e) =
    if ltb now e.expiry then (m, ok e.cert) else stored m host now (mint signer m.ttl host now)

unfoldable pub cert_for : Signer → Minter → Bytes → ℕ → Minter × Result Error Cert
unfolding cached lookup is_empty
cert_for signer m host now =
    if is_empty host then (m, err empty_host) else cached signer m host now (lookup host m.cache)
