-- ===== src/Enroll/Run.antt =====
-- EnsureCA of internal/enroll/ca.go and Run of internal/enroll/enroll.go.
pub mod Steps
pub mod Access
pub mod Authority
pub mod Registry
pub mod NewCa
use cc_mysub.Base.{
  ℕ, Bytes, Bool, true, false, Result, ok, err, List, [], ◌∷◌, Option, none, some, if◌then◌else◌,
}
use cc_mysub.Auth.Token.{Sha256}
use cc_mysub.Config.{ClientConfig}
use cc_mysub.Enroll.{
  Params, Error, File, absent, unreadable, content, write_devices, stat_ca, generate_ca,
  write_ca_key, write_ca_cert, load_config_error, resolve, resolve_fingerprint,
}
use cc_mysub.Enroll.Devices.{Codec, append_device, replace_device}

-- The files of the configuration directory that the command changes. EnsureCA only asks os.Stat for
-- ca.crt: there, `unreadable` is a file of which that fails.
pub record Dir : Type 0 where
  pub ca_crt : File
  pub ca_key : File
  pub devices : File

-- How an os.WriteFile ends: it is complete, or it fails and leaves the file so.
pub data Write : Type 0 where
  complete : Write
  broken : File → Write

abbrev pub written : Write → Bytes → File
written complete b = content b
written (broken left) b = left

abbrev pub is_complete : Write → Bool
is_complete complete = true
is_complete (broken left) = false

-- What is outside the command: mitm.GenerateCA (certificate and key), and the writes.
pub record Host : Type 0 where
  pub generated : Option (Bytes × Bytes)
  pub write_key : Write
  pub write_crt : Write
  pub write_list : Write

generate : Host → Dir → Option (Bytes × Bytes) → Dir × Result Error (Unit {0})
generate host dir none = (dir, err generate_ca)
generate host dir (some (crt, key)) =
    let keyed = record dir { ca_key = written host.write_key key } in
    if is_complete host.write_key
    then (
      record keyed { ca_crt = written host.write_crt crt },
      (if is_complete host.write_crt then ok tt else err write_ca_cert),
    )
    else (keyed, err write_ca_key)

ca_at : Host → Dir → File → Dir × Result Error (Unit {0})
unfolding generate
ca_at host dir absent = generate host dir host.generated
ca_at host dir unreadable = (dir, err stat_ca)
ca_at host dir (content b) = (dir, ok tt)

-- EnsureCA: an existing ca.crt is kept; otherwise the key is written before the certificate.
unfoldable pub ensure_ca : Host → Dir → Dir × Result Error (Unit {0})
unfolding ca_at
ensure_ca host dir = ca_at host dir dir.ca_crt

-- The parsed command line.
pub record Flags : Type 0 where
  pub params : Params
  pub rotate : Bool
  pub fingerprint : Bytes
  pub client_cert : Bytes

saved : Host → Dir → Bytes → Result Error Bytes → Dir × Result Error Bytes
saved host dir fp (err e) = (dir, err e)
saved host dir fp (ok b) = (
  record dir { devices = written host.write_list b },
  (if is_complete host.write_list then ok fp else err write_devices),
)

module _ (sha : Sha256) (pem_decode : Bytes → Option Bytes) (codec : Codec) (host : Host) where
  register : Flags → Params → Dir → Result Error Bytes → Dir × Result Error Bytes
  unfolding saved append_device replace_device
  register flags p dir (err e) = (dir, err e)
  register flags p dir (ok fp) = saved host dir fp (
      if flags.rotate
      then replace_device codec dir.devices p fp
      else append_device codec dir.devices p fp)

  with_ca : Flags → Params → File → Dir × Result Error (Unit {0}) → Dir × Result Error Bytes
  unfolding register resolve_fingerprint
  with_ca flags p cert (dir, err e) = (dir, err e)
  with_ca flags p cert (dir, ok done) =
      register flags p dir
        (resolve_fingerprint sha pem_decode flags.fingerprint flags.client_cert cert)

  with_params : Flags → File → Dir → Result Error Params → Dir × Result Error Bytes
  unfolding with_ca ensure_ca
  with_params flags cert dir (err e) = (dir, err e)
  with_params flags cert dir (ok p) = with_ca flags p cert (ensure_ca host dir)

  -- Run behind the parsing of its flags: the client section of config.json, if it loads, the file of
  -- --client-cert, and the directory; it gives the fingerprint that it prints.
  unfoldable pub run :
      Flags → Result Error (Option ClientConfig) → File → Dir → Dir × Result Error Bytes
  unfolding with_params resolve
  run flags (err e) cert dir = (dir, err e)
  run flags (ok def) cert dir = with_params flags cert dir (resolve def flags.params)
