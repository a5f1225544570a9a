-- ===== src/DeviceInit.antt =====
-- cmd/cc-mysub/deviceinit.go: the key and the certificate of a device, made once. Making them, and PEM,
-- are parameters. A write by writeFileAtomic is whole or not at all, as `DeviceInit.Atomic` shows.
pub mod Identity
pub mod Atomic
pub mod Pasted
use cc_mysub.Base.{
  ℕ, Bytes, codes, is_empty, Bool, true, false, ◌&&◌, Option, none, some, List, [], ◌∷◌,
  if◌then◌else◌, ◌≡◌,
}
use cc_mysub.Auth.Token.{Sha256, cert_fingerprint}

-- device.key and device.crt.
pub record Dir : Type 0 where
  pub key : Option Bytes
  pub crt : Option Bytes

-- What runDeviceInit makes: the private key and the certificate as PEM, and the certificate's DER.
pub record Pair : Type 0 where
  pub key_pem : Bytes
  pub crt_pem : Bytes
  pub der : Bytes

-- pem.Decode on a file. A certificate's PEM is read back, and the certificate is that of its key.
pub record Pem : Type 1 where
  pub decode : Bytes → Option Bytes
  pub IsOf : Bytes → Bytes → Type 0
  pub Makes : Pair → Type 0
  pub decode-makes : (p : Pair) → Makes p → decode p.crt_pem ≡ some p.der
  pub makes-IsOf : (p : Pair) → Makes p → IsOf p.key_pem p.crt_pem

-- The flag --label of one run, and how its steps end: `made` is none if a step before the first write
-- fails.
pub record Attempt : Type 0 where
  pub label : Bytes
  pub makes_dir : Bool
  pub made : Option Pair
  pub writes_key : Bool
  pub writes_crt : Bool

-- The exit code, and the fingerprint and the label of the add-device command that printEnroll prints.
pub record Exit : Type 0 where
  pub code : ℕ
  pub printed : Option Bytes
  pub label : Bytes

abbrev pub failed : Exit
failed = record { code = 1; printed = none; label = [] }

-- The common name of a new certificate.
abbrev pub common_name : Bytes → Bytes
common_name label = if is_empty label then codes "cc-mysub-device" else label

module _ (sha : Sha256) where
  abbrev pub print_enroll : Bytes → Bytes → Exit
  print_enroll der label = record {
    code = 0;
    printed = some (cert_fingerprint sha der);
    label = label;
  }

  abbrev reprint : Bytes → Option Bytes → Exit
  reprint label none = failed
  reprint label (some der) = print_enroll der label

  save : Attempt → Dir → Option Pair → Dir × Exit
  save a dir none = (dir, failed)
  save a dir (some p) =
      let keyed = record dir { key = some p.key_pem } in
      if a.writes_key
      then (if a.writes_crt
          then (record keyed { crt = some p.crt_pem }, print_enroll p.der (common_name a.label))
          else (keyed, failed))
      else (dir, failed)

  create : Attempt → Dir → Dir × Exit
  unfolding save
  create a dir = if a.makes_dir then save a dir a.made else (dir, failed)

  -- An existing pair of files is kept, and its fingerprint printed again.
  present : (Bytes → Option Bytes) → Attempt → Dir → Option Bytes → Option Bytes → Dir × Exit
  unfolding create
  present decode a dir (some k) (some c) = (dir, reprint a.label (decode c))
  present decode a dir (some k) none = create a dir
  present decode a dir none crt = create a dir

  -- runDeviceInit behind its flags.
  unfoldable pub run_device_init : (Bytes → Option Bytes) → Attempt → Dir → Dir × Exit
  unfolding present
  run_device_init decode a dir = present decode a dir dir.key dir.crt
