-- ===== src/Tests/Enrolment.antt =====
-- Tests of add-device and of the certificates.
use mathlib.Core.Bool.{false≢true}
use cc_mysub.Base.{
  ◌∙◌, equal_iff, and-true, ◌&&◌, ◌==◌, ==_iff, ℤ, negsuc, ap, sym, subst, ◌∙◌, Bool-cases, equal,
  ℕ, Bytes, codes, Bool, true, false, List, [], ◌∷◌, ◌++◌, Option, none, some, ok, ◌≡◌, ◌≢◌, inl,
  inr, refl, pos, arith, ◌*◌, if◌then◌else◌,
}
use cc_mysub.Auth.Token.{canonical_fingerprint}
use cc_mysub.Auth.Store.{Device, Disk, lookup_device}
use cc_mysub.Auth.Store.Watch.{quiet}
use cc_mysub.Enroll.{content, absent, resolve_fingerprint}
use cc_mysub.Enroll.Devices.{Codec, old_rows}
use cc_mysub.Enroll.Run.{Dir, Host, complete, Flags, run}
use cc_mysub.Enroll.Run.Access.{admits}
use cc_mysub.Enroll.Run.Authority.{SameCa, run-SameCa}
use cc_mysub.Mitm.{Template, Cert, Signer, new_minter, cert_for}
use cc_mysub.Mitm.Cache.{Answers, new_minter-IsValid, cert_for-Answers}
use cc_mysub.Proxy.OuterCert.{new_outer_cert_loader, get}
use cc_mysub.Proxy.OuterCert
use cc_mysub.Proxy.OuterCert.Renewal.{handshakes, get-renewal}
use cc_mysub.Auth.Token.{cert_fingerprint}
use cc_mysub.Proxy.Handle.{ForwardProxy, closed}
use cc_mysub.Proxy.Handle
use cc_mysub.Proxy.Session.{serve_conn}
use cc_mysub.Proxy.Session.Revoked.{rotated_refused}
use cc_mysub.Tests.Session.{self, inner}
use cc_mysub.Tests.Data.{conn_of, upstream, net, usage, world}
use cc_mysub.Tests.Data.{laptop, laptop_fp, phone_fp, laptop_store, toy_sha}

abbrev renewed : Device
renewed = record laptop { cert_sha256 = phone_fp }

abbrev is_two : ℤ → Bool
is_two (pos n) = n == 2
is_two (negsuc n) = false

abbrev is_renewed : Device → Bool
is_renewed d =
    (equal d.label laptop.label && equal d.cert_sha256 phone_fp)
    && (equal d.upstream laptop.upstream && is_two d.rate_limit)

is_two-pos : (z : ℤ) → is_two z ≡ true → z ≡ pos 2
is_two-pos (pos n) h = ap pos ((==_iff n 2).0 h)
is_two-pos (negsuc n) h = cc

is_renewed-renewed : (d : Device) → is_renewed d ≡ true → d ≡ renewed
is_renewed-renewed d h =
    let (a, b) = and-true (equal d.label laptop.label && equal d.cert_sha256 phone_fp) _ h in
    let (l, c) = and-true (equal d.label laptop.label) _ a in
    let (u, r) = and-true (equal d.upstream laptop.upstream) _ b in
    same ((equal_iff d.label laptop.label).0 l) ((equal_iff d.cert_sha256 phone_fp).0 c)
      ((equal_iff d.upstream laptop.upstream).0 u) (is_two-pos d.rate_limit r)
  where
    same :
        d.label ≡ laptop.label
        → d.cert_sha256 ≡ phone_fp
        → d.upstream ≡ laptop.upstream
        → d.rate_limit ≡ pos 2
        → d ≡ renewed
    same l c u r =
        ap (λ x. record d { label = x }) l
        ∙ ap (λ x. record d { label = laptop.label; cert_sha256 = x }) c
        ∙ ap (λ x. record d { label = laptop.label; cert_sha256 = phone_fp; upstream = x }) u
        ∙ ap (λ x. record renewed { rate_limit = x }) r

-- A codec of two documents: the old list, and the list of the renewed device.
abbrev toy_decode : Bytes → Option (List Device)
toy_decode b = if equal b (codes "old") then some (laptop ∷ []) else some (renewed ∷ [])

abbrev toy_encode : List Device → Option Bytes
toy_encode (d ∷ []) = if is_renewed d then some (codes "new") else none
toy_encode _ = none

toy_decode-encode :
    (rows : List Device) (b : Bytes)
    → toy_encode rows ≡ some b
    → toy_decode (b ++ 10 ∷ []) ≡ some rows
unfolding equal
toy_decode-encode [] b h = cc
toy_decode-encode (d ∷ []) b h = elim (Bool-cases (is_renewed d)) [
  | inr e ↦ cc (rw e at h)
  | inl e ↦
      let k : some (codes "new") ≡ some b = rw e at h in
      let same : codes "new" ≡ b = cc in
      subst (λ x. toy_decode (x ++ 10 ∷ []) ≡ some (d ∷ [])) same
        (ap (λ x. some (x ∷ [])) (sym (is_renewed-renewed d e)))
]
toy_decode-encode (d ∷ e ∷ rows) b h = cc

abbrev codec : Codec
codec = record { decode = toy_decode; encode = toy_encode; decode-encode = toy_decode-encode }

abbrev pem : Bytes → Option Bytes
pem b = none

abbrev host : Host
host = record {
  generated = none;
  write_key = complete;
  write_crt = complete;
  write_list = complete;
}

abbrev flags : Flags
flags = record {
  params = record {
    label = codes "laptop";
    public_host = codes "proxy.example";
    sub_type = [];
    rate_limit = pos 2;
    upstream = codes "max";
  };
  rotate = true;
  fingerprint = phone_fp;
  client_cert = [];
}

abbrev dir : Dir
dir = record {
  ca_crt = content (codes "crt");
  ca_key = content (codes "key");
  devices = content (codes "old");
}

run_ok : (run toy_sha pem codec host flags (ok none) absent dir).1 ≡ ok phone_fp
unfolding run canonical_fingerprint equal
run_ok = refl

run_devices :
    (run toy_sha pem codec host flags (ok none) absent dir).0.devices ≡ content (codes "new\n")
unfolding run canonical_fingerprint equal
run_devices = refl

old : old_rows codec dir.devices ≡ ok (laptop ∷ [])
unfolding old_rows equal
old = refl

abbrev disk : Disk
disk = record { stat = some 9; content = some (codes "new\n") }

admits_example :
    (d : Device) × (lookup_device (quiet codec.decode 1 disk laptop_store) phone_fp ≡ some d)
    × (d.label ≡ flags.params.label)
    × (d.upstream ≡ flags.params.upstream)
    × (d.rate_limit ≡ flags.params.rate_limit)
admits_example =
    admits toy_sha pem codec host flags (ok none) absent dir phone_fp (codes "new\n") run_ok
      run_devices disk 9 refl refl laptop_store 0 (omega arith)

phone_differs : phone_fp ≢ laptop_fp
unfolding equal
phone_differs e = false≢true ((equal_iff phone_fp laptop_fp).1 e)

cert_known : cert_fingerprint toy_sha (codes "der") ≡ laptop_fp
unfolding cert_fingerprint
cert_known = refl

abbrev polling : ForwardProxy
polling = record { auth = quiet codec.decode 1 disk laptop_store; allow = [] }

rotated_refused_example :
    (Handle.handle toy_sha polling (conn_of (codes "x")) ≡ closed [])
    × (serve_conn upstream net usage self 3 inner toy_sha polling
          (conn_of (codes "x"))
          (new_minter 60)
          world
        ≡ (new_minter 60, world))
rotated_refused_example =
    rotated_refused toy_sha pem codec host flags (ok none) absent dir phone_fp (codes "new\n")
      run_ok run_devices disk 9 refl refl laptop_store 0 (omega arith) upstream net usage self 3
      inner polling refl (conn_of (codes "x")) (new_minter 60) world (codes "der") (laptop ∷ [])
      refl old (λ e. phone_differs (e ∙ cert_known)) (inl refl, tt) refl

run-SameCa_example : SameCa dir (run toy_sha pem codec host flags (ok none) absent dir).0
run-SameCa_example = run-SameCa toy_sha pem codec host flags (ok none) absent dir (codes "crt") refl

flag_ok :
    resolve_fingerprint toy_sha pem
      (codes " 00112233445566778899AABBCCDDEEFF00112233445566778899AABBCCDDEEFF")
      []
      absent
    ≡ ok phone_fp
unfolding resolve_fingerprint canonical_fingerprint
flag_ok = refl

signed :
    (t : Template) (c : Cert)
    → some (record { der = t.common_name; leaf = t }) ≡ some c
    → c.leaf ≡ t
signed t c e = cc

abbrev signer : Signer
signer = record { sign = λ t. some (record { der = t.common_name; leaf = t }); sign-leaf = signed }

abbrev day : ℕ
day = 86_400_000_000_000

cert_for-Answers_example :
    Answers
      (new_minter day)
      (codes "api.anthropic.com")
      (2 * day)
      (cert_for signer (new_minter day) (codes "api.anthropic.com") (2 * day))
cert_for-Answers_example =
    cert_for-Answers signer (new_minter day) (codes "api.anthropic.com") day (2 * day) (omega arith)
      (new_minter-IsValid day day)

abbrev cert_disk : OuterCert.Disk
cert_disk = record { stat = some 4; pair = some (codes "pair") }

abbrev broken_disk : OuterCert.Disk
broken_disk = record { stat = some 4; pair = none }

get-renewal_example :
    ((get new_outer_cert_loader cert_disk).1 ≡ ok (codes "pair"))
    × ((get (handshakes (broken_disk ∷ []) (get new_outer_cert_loader cert_disk).0) broken_disk).1
        ≡ ok (codes "pair"))
get-renewal_example =
    get-renewal new_outer_cert_loader cert_disk broken_disk (broken_disk ∷ []) 4 (codes "pair") refl
      refl (omega arith) (refl, tt) refl
