-- ===== src/Enroll/Run/Authority.antt =====
-- EnsureCA of internal/enroll/ca.go within the command.
use cc_mysub.Base.{Bytes, Result, ok, err, Option, ◌≡◌, refl}
use cc_mysub.Auth.Token.{Sha256}
use cc_mysub.Config.{ClientConfig}
use cc_mysub.Enroll.{Params, Error, File, content, resolve, resolve_fingerprint}
use cc_mysub.Enroll.Devices.{Codec}
use cc_mysub.Enroll.Run.{Dir, Host, Flags, saved, register, with_ca, with_params, run}
use cc_mysub.Enroll.Run.Steps.{ensure_ca_keeps}

abbrev pub SameCa : Dir → Dir → Type 0
SameCa dir dir' = (dir'.ca_crt ≡ dir.ca_crt) × (dir'.ca_key ≡ dir.ca_key)

saved-SameCa :
    (host : Host) (dir : Dir) (fp : Bytes) (r : Result Error Bytes)
    → SameCa dir (saved host dir fp r).0
unfolding saved
saved-SameCa host dir fp (err e) = (refl, refl)
saved-SameCa host dir fp (ok b) = (refl, refl)

module _ (sha : Sha256) (pem_decode : Bytes → Option Bytes) (codec : Codec) (host : Host) where
  register-SameCa :
      (flags : Flags) (p : Params) (dir : Dir) (r : Result Error Bytes)
      → SameCa dir (register sha pem_decode codec host flags p dir r).0
  unfolding register
  register-SameCa flags p dir (err e) = (refl, refl)
  register-SameCa flags p dir (ok fp) = saved-SameCa host dir fp _

  -- While ca.crt exists, add-device, whether it succeeds or fails, changes neither ca.crt nor ca.key.
  pub run-SameCa :
      (flags : Flags) (cfg : Result Error (Option ClientConfig)) (cert : File) (dir : Dir)
      (b : Bytes)
      → dir.ca_crt ≡ content b
      → SameCa dir (run sha pem_decode codec host flags cfg cert dir).0
  unfolding run
  run-SameCa flags (err e) cert dir b c = (refl, refl)
  run-SameCa flags (ok def) cert dir b c = params_same (resolve def flags.params)
    where
      params_same :
          (r : Result Error Params)
          → SameCa dir (with_params sha pem_decode codec host flags cert dir r).0
      params_same (err e) = unfold with_params in (refl, refl)
      params_same (ok p) =
          unfold with_params with_ca in
          rw (ensure_ca_keeps host dir b c) (
            register-SameCa flags p dir
              (resolve_fingerprint sha pem_decode flags.fingerprint flags.client_cert cert))
