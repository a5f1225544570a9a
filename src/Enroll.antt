-- ===== src/Enroll.antt =====
-- internal/enroll/enroll.go and ca.go: the add-device command, by which the operator lets a device in.
-- `Enroll.Devices` has the changes of devices.json, `Enroll.Run` the command.
pub mod Devices
pub mod Run
pub mod Fingerprint
use cc_mysub.Base.{
  ℕ, ◌+◌, Bytes, Bool, true, false, ◌&&◌, leb, is_empty, trim_space, map, Result, ok, err, List, [],
  ◌∷◌, Option, none, some, ℤ, if◌then◌else◌,
}
use cc_mysub.Auth.Token.{Sha256, canonical_fingerprint, cert_fingerprint}
use cc_mysub.Config.{ClientConfig}

pub record Params : Type 0 where
  pub label : Bytes
  pub public_host : Bytes
  pub sub_type : Bytes
  pub rate_limit : ℤ
  pub upstream : Bytes

pub data Error : Type 0 where
  invalid_fingerprint read_client_cert no_pem_block fingerprint_required : Error
  label_required host_required load_config_error : Error
  read_devices parse_devices duplicate_label label_not_found encode_devices write_devices : Error
  stat_ca generate_ca write_ca_key write_ca_cert : Error

-- A file as os.Stat and os.ReadFile find it.
pub data File : Type 0 where
  absent unreadable : File
  content : Bytes → File

-- strings.ToLower on ASCII. Its Unicode cases give no hexadecimal digit, and what it is used for
-- refuses every other character.
abbrev pub lower : ℕ → ℕ
lower c = if leb b'A' c && leb c b'Z' then c + 32 else c

unfoldable pub to_lower : Bytes → Bytes
to_lower s = map lower s

flag_fingerprint : Bytes → Result Error Bytes
flag_fingerprint fp = if canonical_fingerprint fp then ok fp else err invalid_fingerprint

pem_fingerprint : Sha256 → Option Bytes → Result Error Bytes
unfolding cert_fingerprint
pem_fingerprint sha none = err no_pem_block
pem_fingerprint sha (some der) = ok (cert_fingerprint sha der)

-- `pem_decode` gives the bytes of the first block.
file_fingerprint : Sha256 → (Bytes → Option Bytes) → File → Result Error Bytes
unfolding pem_fingerprint
file_fingerprint sha pem_decode absent = err read_client_cert
file_fingerprint sha pem_decode unreadable = err read_client_cert
file_fingerprint sha pem_decode (content b) = pem_fingerprint sha (pem_decode b)

-- resolveFingerprint; the file is the one that --client-cert names.
unfoldable pub resolve_fingerprint :
    Sha256 → (Bytes → Option Bytes) → Bytes → Bytes → File → Result Error Bytes
unfolding flag_fingerprint file_fingerprint to_lower trim_space is_empty
resolve_fingerprint sha pem_decode fingerprint client_cert file =
    if is_empty fingerprint
    then (if is_empty client_cert
        then err fingerprint_required
        else file_fingerprint sha pem_decode file)
    else flag_fingerprint (to_lower (trim_space fingerprint))

abbrev default_to : Bytes → Bytes → Bytes
default_to b d = if is_empty b then d else b

with_defaults : Option ClientConfig → Params → Params
unfolding is_empty
with_defaults none p = p
with_defaults (some c) p = record p {
  public_host = default_to p.public_host c.public_host;
  sub_type = default_to p.sub_type c.subscription_type;
}

required : Params → Result Error Params
unfolding is_empty
required p =
    if is_empty p.label
    then err label_required
    else if is_empty p.public_host
    then err host_required
    else ok p

unfoldable pub resolve : Option ClientConfig → Params → Result Error Params
unfolding with_defaults required
resolve def override = required (with_defaults def override)
