-- ===== src/Enroll/Run/Registry.antt =====
-- A sequence of add-device commands, seen as a table of labels.
use cc_mysub.Base.{
  Bytes, true, false, Bool, Bool-cases, Result, ok, err, ◌>>=◌, List, [], ◌∷◌, Option, ◌≡◌, inl,
  inr, refl, ◌∙◌,
}
use cc_mysub.Auth.Token.{Sha256}
use cc_mysub.Config.{ClientConfig}
use cc_mysub.Enroll.{Params, Error, File, content, resolve, resolve_fingerprint}
use cc_mysub.Enroll.Devices.{Codec}
use cc_mysub.Enroll.Devices.Registry.{
  Registry, enter, Shows, Total, Refines, change, change-Refines,
}
use cc_mysub.Enroll.Run.{Dir, Host, complete, Flags, saved, register, with_ca, with_params, run}
use cc_mysub.Enroll.Run.Steps.{ensure_ca_keeps}

-- One call of the command: its flags, the client section of config.json, and the client's certificate.
pub record Command : Type 0 where
  pub flags : Flags
  pub config : Result Error (Option ClientConfig)
  pub cert : File

module _ (sha : Sha256) (pem_decode : Bytes → Option Bytes) (codec : Codec) (host : Host) where
  abbrev pub run_all : List Command → Dir → Dir × List (Result Error Bytes)
  run_all [] dir = (dir, [])
  run_all (c ∷ cs) dir =
      let (next, answer) = run sha pem_decode codec host c.flags c.config c.cert dir in
      let (last, answers) = run_all cs next in (last, answer ∷ answers)

-- The command on the abstract table.
abbrev pub replay_one :
    Bool → Result Error (Params × Bytes) → Option Registry → Option Registry × Result Error Bytes
replay_one rotate (err e) reg = (reg, err e)
replay_one rotate (ok (p, fp)) reg = enter rotate p fp reg

-- What the command asks for, before it looks at the list.
module _ (sha : Sha256) (pem_decode : Bytes → Option Bytes) where
  abbrev pub request : Command → Result Error (Params × Bytes)
  request c = (c.config >>= λ def. resolve def c.flags.params) >>= λ p.
      (resolve_fingerprint sha pem_decode c.flags.fingerprint c.flags.client_cert c.cert >>= λ fp.
      ok (p, fp))

  abbrev pub replay : List Command → Option Registry → Option Registry × List (Result Error Bytes)
  replay [] reg = (reg, [])
  replay (c ∷ cs) reg =
      let (next, answer) = replay_one c.flags.rotate (request c) reg in
      let (last, answers) = replay cs next in (last, answer ∷ answers)

module _ (sha : Sha256) (pem_decode : Bytes → Option Bytes) (codec : Codec) (total : Total codec)
    (host : Host) (writes : host.write_list ≡ complete) where
  abbrev Agrees : Dir → Dir × Result Error Bytes → Option Registry × Result Error Bytes → Type 0
  Agrees dir (next, r) (reg, answer) =
      (next.ca_crt ≡ dir.ca_crt) × Shows codec next.devices reg × (r ≡ answer)

  saved-Agrees :
      (dir : Dir) (fp : Bytes) (r : Result Error Bytes) (a : Option Registry × Result Error Bytes)
      → Refines codec dir.devices fp r a
      → Agrees dir (saved host dir fp r) a
  unfolding saved
  saved-Agrees dir fp (err e) (reg, answer) (v, e') = (refl, v, e')
  saved-Agrees dir fp (ok b) (reg, answer) (v, e) = rw writes (refl, v, e)

  register-Agrees :
      (flags : Flags) (p : Params) (dir : Dir) (reg : Option Registry) (fp : Bytes)
      → Shows codec dir.devices reg
      → Agrees dir
          (register sha pem_decode codec host flags p dir (ok fp))
          (enter flags.rotate p fp reg)
  unfolding register
  register-Agrees flags p dir reg fp h = elim (Bool-cases flags.rotate) [
    | inl e ↦ rw e (
        saved-Agrees dir fp (change codec true dir.devices p fp) (enter true p fp reg)
          (change-Refines codec total true dir.devices reg p fp h))
    | inr e ↦ rw e (
        saved-Agrees dir fp (change codec false dir.devices p fp) (enter false p fp reg)
          (change-Refines codec total false dir.devices reg p fp h))
  ]

  module _ (c : Bytes) (dir : Dir) (ca : dir.ca_crt ≡ content c) (reg : Option Registry)
      (shows : Shows codec dir.devices reg) where
    registered :
        (flags : Flags) (p : Params) (r : Result Error Bytes)
        → Agrees dir
            (register sha pem_decode codec host flags p dir r)
            (replay_one flags.rotate (r >>= λ fp. ok (p, fp)) reg)
    unfolding register
    registered flags p (err e) = (refl, shows, refl)
    registered flags p (ok fp) = register-Agrees flags p dir reg fp shows

    with_params-Agrees :
        (flags : Flags) (cert : File) (r : Result Error Params)
        → Agrees dir (with_params sha pem_decode codec host flags cert dir r) (
            replay_one flags.rotate
              (r >>= λ p.
                (resolve_fingerprint sha pem_decode flags.fingerprint flags.client_cert cert
                  >>= λ fp. ok (p, fp)))
              reg)
    unfolding with_params with_ca
    with_params-Agrees flags cert (err e) = (refl, shows, refl)
    with_params-Agrees flags cert (ok p) = rw (ensure_ca_keeps host dir c ca) (
        registered flags p
          (resolve_fingerprint sha pem_decode flags.fingerprint flags.client_cert cert))

    run-Agrees :
        (cmd : Command)
        → Agrees dir
            (run sha pem_decode codec host cmd.flags cmd.config cmd.cert dir)
            (replay_one cmd.flags.rotate (request sha pem_decode cmd) reg)
    unfolding run
    run-Agrees cmd = from_config cmd.config
      where
        from_config :
            (r : Result Error (Option ClientConfig))
            → Agrees dir (run sha pem_decode codec host cmd.flags r cmd.cert dir) (
                replay_one cmd.flags.rotate
                  (request sha pem_decode (record cmd { config = r }))
                  reg)
        from_config (err e) = (refl, shows, refl)
        from_config (ok def) = with_params-Agrees cmd.flags cmd.cert (resolve def cmd.flags.params)

  -- A sequence of add-device commands in a directory with a CA, whose codec writes every list and whose
  -- writes of devices.json are complete, refines a table of labels: each command gives the answer that
  -- the table gives (an addition wants a new label, a rotation a known one, a rotation without a list
  -- is an error, and a request that does not resolve changes nothing), and the file that is left shows
  -- the table that is left.
  pub run_refines :
      (cs : List Command) (c : Bytes) (dir : Dir) (reg : Option Registry)
      → dir.ca_crt ≡ content c
      → Shows codec dir.devices reg
      → Shows codec
          (run_all sha pem_decode codec host cs dir).0.devices
          (replay sha pem_decode cs reg).0
        × ((run_all sha pem_decode codec host cs dir).1 ≡ (replay sha pem_decode cs reg).1)
  run_refines [] c dir reg ca shows = (shows, refl)
  run_refines (cmd ∷ cs) c dir reg ca shows =
      let now = run sha pem_decode codec host cmd.flags cmd.config cmd.cert dir in
      let then' = replay_one cmd.flags.rotate (request sha pem_decode cmd) reg in
      let (k, v, e) = run-Agrees c dir ca reg shows cmd in
      let (w, es) = run_refines cs c now.0 then'.0 (k ∙ ca) v in (w, cc)
