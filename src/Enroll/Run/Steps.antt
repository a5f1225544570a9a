-- ===== src/Enroll/Run/Steps.antt =====
-- The steps of a command that succeeds: internal/enroll/enroll.go and ca.go.
use cc_mysub.Base.{
  Bytes, is_empty, true, false, Bool-cases, Result, ok, err, ◌>>=◌, Option, none, some, ◌≡◌, inl,
  inr, refl, sym, ap, subst, ◌∙◌, if◌then◌else◌,
}
use cc_mysub.Auth.Token.{Sha256}
use cc_mysub.Config.{ClientConfig}
use cc_mysub.Enroll.{
  Params, Error, File, absent, unreadable, content, resolve, with_defaults, required,
  resolve_fingerprint,
}
use cc_mysub.Enroll.Devices.{Codec, append_device, replace_device}
use cc_mysub.Enroll.Run.{
  Dir, Write, complete, broken, written, is_complete, Host, generate, ca_at, ensure_ca, Flags,
  saved, register, with_ca, with_params, run,
}

pub written_complete : (w : Write) (b : Bytes) → is_complete w ≡ true → written w b ≡ content b
written_complete complete b e = refl
written_complete (broken left) b e = cc

generate-devices :
    (host : Host) (dir : Dir) (g : Option (Bytes × Bytes))
    → (generate host dir g).0.devices ≡ dir.devices
unfolding generate
generate-devices host dir none = refl
generate-devices host dir (some (crt, key)) = elim (Bool-cases (is_complete host.write_key)) [
  | inl e ↦ rw e refl
  | inr e ↦ rw e refl
]

ca_at-devices : (host : Host) (dir : Dir) (f : File) → (ca_at host dir f).0.devices ≡ dir.devices
unfolding ca_at
ca_at-devices host dir absent = generate-devices host dir host.generated
ca_at-devices host dir unreadable = refl
ca_at-devices host dir (content b) = refl

-- An existing ca.crt stays, with its key.
pub ensure_ca_keeps :
    (host : Host) (dir : Dir) (b : Bytes)
    → dir.ca_crt ≡ content b
    → ensure_ca host dir ≡ (dir, ok tt)
unfolding ensure_ca ca_at
ensure_ca_keeps host dir b e = ap (ca_at host dir) e

saved-ok :
    (host : Host) (dir : Dir) (fp g : Bytes) (r : Result Error Bytes)
    → (saved host dir fp r).1 ≡ ok g
    → (b : Bytes) × (r ≡ ok b) × ((saved host dir fp r).0.devices ≡ content b) × (g ≡ fp)
unfolding saved
saved-ok host dir fp g (err e) h = cc
saved-ok host dir fp g (ok b) h = elim (Bool-cases (is_complete host.write_list)) [
  | inl e ↦ (b, refl, written_complete host.write_list b e, cc (rw e at h))
  | inr e ↦ cc (rw e at h)
]

required-ok :
    (q p : Params)
    → required q ≡ ok p
    → (q ≡ p) × (is_empty p.label ≡ false) × (is_empty p.public_host ≡ false)
unfolding required
required-ok q p h = elim (Bool-cases (is_empty q.label)) [
  | inl e ↦ cc (rw e at h)
  | inr e ↦ elim (Bool-cases (is_empty q.public_host)) [
    | inl f ↦ cc (rw (e, f) at h)
    | inr f ↦
        let same : q ≡ p = cc (rw (e, f) at h) in
        (
          same,
          subst (λ (x : Params). is_empty x.label ≡ false) same e,
          subst (λ (x : Params). is_empty x.public_host ≡ false) same f,
        )
  ]
]

-- Only the host and the tier have defaults.
abbrev pub Keeps : Params → Params → Type 0
Keeps q p = (p.label ≡ q.label) × (p.rate_limit ≡ q.rate_limit) × (p.upstream ≡ q.upstream)

with_defaults-Keeps : (def : Option ClientConfig) (q : Params) → Keeps q (with_defaults def q)
unfolding with_defaults
with_defaults-Keeps none q = (refl, refl, refl)
with_defaults-Keeps (some c) q = (refl, refl, refl)

pub resolve-Keeps :
    (def : Option ClientConfig) (q p : Params)
    → resolve def q ≡ ok p
    → Keeps q p × (is_empty p.label ≡ false)
unfolding resolve
resolve-Keeps def q p h =
    let (same, l, host) = required-ok (with_defaults def q) p h in
    (subst (Keeps q) same (with_defaults-Keeps def q), l)

module _ (sha : Sha256) (pem_decode : Bytes → Option Bytes) (codec : Codec) (host : Host) where
  abbrev pub op : Flags → Params → Dir → Bytes → Result Error Bytes
  op flags p dir fp =
      if flags.rotate
      then replace_device codec dir.devices p fp
      else append_device codec dir.devices p fp

  register-ok :
      (flags : Flags) (p : Params) (dir : Dir) (r : Result Error Bytes) (g : Bytes)
      → (register sha pem_decode codec host flags p dir r).1 ≡ ok g
      → (b : Bytes) × (r ≡ ok g)
        × (op flags p dir g ≡ ok b)
        × ((register sha pem_decode codec host flags p dir r).0.devices ≡ content b)
  unfolding register
  register-ok flags p dir (err e) g h = cc
  register-ok flags p dir (ok fp) g h =
      let (b, o, d, e) = saved-ok host dir fp g (op flags p dir fp) h in
      (b, ap (λ x. ok x) (sym e), ap (op flags p dir) e ∙ o, d)

  with_ca-ok :
      (flags : Flags) (p : Params) (cert : File) (a : Dir × Result Error (Unit {0})) (g : Bytes)
      → (with_ca sha pem_decode codec host flags p cert a).1 ≡ ok g
      → (b : Bytes) × (resolve_fingerprint sha pem_decode flags.fingerprint flags.client_cert cert
          ≡ ok g)
        × (op flags p a.0 g ≡ ok b)
        × ((with_ca sha pem_decode codec host flags p cert a).0.devices ≡ content b)
  unfolding with_ca
  with_ca-ok flags p cert (dir, err e) g h = cc
  with_ca-ok flags p cert (dir, ok done) g h =
      register-ok flags p dir
        (resolve_fingerprint sha pem_decode flags.fingerprint flags.client_cert cert) g h

  op-devices :
      (flags : Flags) (p : Params) (dir dir' : Dir) (fp : Bytes)
      → dir'.devices ≡ dir.devices
      → op flags p dir' fp ≡ op flags p dir fp
  op-devices flags p dir dir' fp e = rw e refl

  -- A command that succeeds went through all its steps.
  pub run-ok :
      (flags : Flags) (cfg : Result Error (Option ClientConfig)) (cert : File) (dir : Dir)
      (g : Bytes)
      → (run sha pem_decode codec host flags cfg cert dir).1 ≡ ok g
      → (b : Bytes) × (p : Params) × ((cfg >>= λ def. resolve def flags.params) ≡ ok p)
        × (resolve_fingerprint sha pem_decode flags.fingerprint flags.client_cert cert ≡ ok g)
        × (op flags p dir g ≡ ok b)
        × ((run sha pem_decode codec host flags cfg cert dir).0.devices ≡ content b)
  unfolding run
  run-ok flags (err e) cert dir g h = cc
  run-ok flags (ok def) cert dir g h = params_ok (resolve def flags.params) h
    where
      params_ok :
          (r : Result Error Params)
          → (with_params sha pem_decode codec host flags cert dir r).1 ≡ ok g
          → (b : Bytes) × (p : Params) × (r ≡ ok p)
            × (resolve_fingerprint sha pem_decode flags.fingerprint flags.client_cert cert ≡ ok g)
            × (op flags p dir g ≡ ok b)
            × ((with_params sha pem_decode codec host flags cert dir r).0.devices ≡ content b)
      params_ok (err e) k = unfold with_params in cc
      params_ok (ok p) k =
          unfold with_params ensure_ca in
          (let (b, f, o, d) = with_ca-ok flags p cert (ensure_ca host dir) g k in
            (
              b,
              p,
              refl,
              f,
              sym (
                    op-devices flags p dir (ensure_ca host dir).0 g
                      (ca_at-devices host dir dir.ca_crt))
                  ∙ o,
              d,
            ))
