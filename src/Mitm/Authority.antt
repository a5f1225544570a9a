-- ===== src/Mitm/Authority.antt =====
-- internal/mitm/ca.go and genca.go: the certificate authority, loaded and generated. encoding/pem,
-- crypto/x509 and crypto/rand are parameters.
pub mod Loading
use cc_mysub.Base.{
  ℕ, ◌+◌, ◌-◌, ◌*◌, ◌/◌, ◌%◌, Bytes, codes, Bool, true, not, ◌&&◌, ◌==◌, Result, ok, err, ◌>>=◌,
  of_option, Option, none, some, ◌≡◌, if◌then◌else◌,
}

-- What the templates of this program fix of a certificate.
pub record CaTemplate : Type 0 where
  pub serial_number : ℕ
  pub common_name : Bytes
  pub not_before : ℕ
  pub not_after : ℕ
  pub is_ca : Bool
  pub key_usage : ℕ
  pub basic_constraints_valid : Bool

-- A parsed certificate. IsCA is read from the basic constraints.
pub record Certificate : Type 0 where
  pub common_name : Bytes
  pub not_before : ℕ
  pub not_after : ℕ
  pub is_ca : Bool
  pub key_usage : ℕ
  pub public_key : Bytes

abbrev pub Key : Type 0
Key = Bytes

abbrev pub said : CaTemplate → Bytes → Certificate
said t public = record {
  common_name = t.common_name;
  not_before = t.not_before;
  not_after = t.not_after;
  is_ca = t.basic_constraints_valid && t.is_ca;
  key_usage = t.key_usage;
  public_key = public;
}

-- The libraries, with what their documentation says of each pair of functions. A PKCS8 key may be of a
-- type that is no crypto.Signer (`some none`).
pub record Crypto : Type 0 where
  pub public : Key → Bytes
  pub pem_decode : Bytes → Option Bytes
  pub pem_encode : Bytes → Bytes → Bytes
  pub parse_certificate : Bytes → Option Certificate
  pub parse_ec_private_key : Bytes → Option Key
  pub parse_pkcs8_private_key : Bytes → Option (Option Key)
  pub create_certificate : CaTemplate → Key → Option Bytes
  pub marshal_ec_private_key : Key → Option Bytes
  pub decode-encode : (kind b : Bytes) → pem_decode (pem_encode kind b) ≡ some b
  pub parse-create :
      (t : CaTemplate) (k : Key) (der : Bytes)
      → create_certificate t k ≡ some der
      → parse_certificate der ≡ some (said t (public k))
  pub parse-marshal :
      (k : Key) (der : Bytes)
      → marshal_ec_private_key k ≡ some der
      → parse_ec_private_key der ≡ some k

pub record Ca : Type 0 where
  pub cert : Certificate
  pub signer : Key

pub data Error : Type 0 where
  decode_cert parse_cert not_a_ca lacks_cert_sign decode_key parse_key not_a_signer : Error
  generate_key generate_serial create_cert marshal_key : Error

abbrev pub digital_signature : ℕ
digital_signature = 1

abbrev pub cert_sign : ℕ
cert_sign = 32

-- cert.KeyUsage != 0 && cert.KeyUsage&x509.KeyUsageCertSign == 0
abbrev pub lacks_sign : ℕ → Bool
lacks_sign usage = not (usage == 0) && (usage / cert_sign) % 2 == 0

abbrev pub check_ca : Certificate → Result Error (Unit {0})
check_ca cert =
    if not cert.is_ca
    then err not_a_ca
    else if lacks_sign cert.key_usage
    then err lacks_cert_sign
    else ok tt

abbrev pub pkcs8_signer : Option (Option Key) → Result Error Key
pkcs8_signer none = err parse_key
pkcs8_signer (some none) = err not_a_signer
pkcs8_signer (some (some k)) = ok k

-- The EC key if it is one, else the PKCS8 key.
abbrev pub key_signer : Option Key → Option (Option Key) → Result Error Key
key_signer (some k) raw = ok k
key_signer none raw = pkcs8_signer raw

-- What crypto/rand and the clock give.
pub record Random : Type 0 where
  pub key : Option Key
  pub serial : Option ℕ
  pub now : ℕ

abbrev pub hour : ℕ
hour = 3_600_000_000_000

abbrev pub ca_template : Bytes → ℕ → ℕ → CaTemplate
ca_template common_name serial now = record {
  serial_number = serial;
  common_name = common_name;
  not_before = now - hour;
  not_after = now + 10 * 365 * 24 * hour;
  is_ca = true;
  key_usage = cert_sign + digital_signature;
  basic_constraints_valid = true;
}

module _ (x : Crypto) where
  unfoldable pub load_ca : Bytes → Bytes → Result Error Ca
  load_ca cert_pem key_pem = do
    cert_block ← of_option decode_cert (x.pem_decode cert_pem)
    cert ← of_option parse_cert (x.parse_certificate cert_block)
    checked ← check_ca cert
    key_block ← of_option decode_key (x.pem_decode key_pem)
    signer ← key_signer (x.parse_ec_private_key key_block) (x.parse_pkcs8_private_key key_block)
    ok (record { cert = cert; signer = signer })

  -- GenerateCA: the certificate and its key.
  unfoldable pub generate_ca : Random → Bytes → Result Error (Bytes × Bytes)
  generate_ca random common_name = do
    key ← of_option generate_key random.key
    serial ← of_option generate_serial random.serial
    der ←
        of_option create_cert (x.create_certificate (ca_template common_name serial random.now) key)
    key_der ← of_option marshal_key (x.marshal_ec_private_key key)
    ok (x.pem_encode (codes "CERTIFICATE") der, x.pem_encode (codes "EC PRIVATE KEY") key_der)
