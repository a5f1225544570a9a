-- ===== src/Enroll/Run/NewCa.antt =====
-- EnsureCA of internal/enroll/ca.go with GenerateCA, and LoadCA of internal/mitm/ca.go, by which the
-- proxy starts: the files of a new authority.
use cc_mysub.Base.{
  ◌+◌, ◌*◌, ◌≤◌, Bytes, Bool-cases, Result, ok, err, Option, none, some, ◌≡◌, inl, inr, refl, sym,
  ap, ◌∙◌,
}
use cc_mysub.Enroll.{Error, absent, content}
use cc_mysub.Enroll.Run.{Dir, Host, is_complete, generate, ca_at, ensure_ca}
use cc_mysub.Enroll.Run.Steps.{written_complete}
use cc_mysub.Mitm.Authority.{Crypto, Ca, Random, hour, load_ca, generate_ca}
use cc_mysub.Mitm.Authority
use cc_mysub.Mitm.Authority.Loading.{generate_ca-load}

abbrev pub pair_of : Result Authority.Error (Bytes × Bytes) → Option (Bytes × Bytes)
pair_of (ok p) = some p
pair_of (err e) = none

pair_of-some :
    (r : Result Authority.Error (Bytes × Bytes)) (p : Bytes × Bytes) → pair_of r ≡ some p → r ≡ ok p
pair_of-some (ok q) p h = cc
pair_of-some (err e) p h = cc

generate-ok :
    (host : Host) (dir : Dir) (g : Option (Bytes × Bytes))
    → (generate host dir g).1 ≡ ok tt
    → (crt key : Bytes) × (g ≡ some (crt, key))
      × ((generate host dir g).0.ca_crt ≡ content crt)
      × ((generate host dir g).0.ca_key ≡ content key)
unfolding generate
generate-ok host dir none h = cc
generate-ok host dir (some (crt, key)) h = elim (Bool-cases (is_complete host.write_key)) [
  | inr e ↦ cc (rw e at h)
  | inl e ↦ elim (Bool-cases (is_complete host.write_crt)) [
    | inr f ↦ cc (rw (e, f) at h)
    | inl f ↦ (
      crt,
      key,
      refl,
      rw (e, written_complete host.write_crt crt f),
      rw (e, written_complete host.write_key key e),
    )
  ]
]

generates :
    (host : Host) (dir : Dir)
    → dir.ca_crt ≡ absent
    → ensure_ca host dir ≡ generate host dir host.generated
unfolding ensure_ca ca_at
generates host dir a = ap (ca_at host dir) a

-- Where there is no ca.crt, an EnsureCA that succeeds leaves a ca.crt and a ca.key that LoadCA takes: a
-- CA of the given name whose public key is that of the loaded signer, valid now and for ten years.
pub ensure_ca-load :
    (x : Crypto) (random : Random) (name : Bytes) (host : Host) (dir : Dir)
    → host.generated ≡ pair_of (generate_ca x random name)
    → dir.ca_crt ≡ absent
    → (ensure_ca host dir).1 ≡ ok tt
    → (crt key : Bytes) × (ca : Ca) × ((ensure_ca host dir).0.ca_crt ≡ content crt)
      × ((ensure_ca host dir).0.ca_key ≡ content key)
      × (load_ca x crt key ≡ ok ca)
      × (ca.cert.common_name ≡ name)
      × (ca.cert.public_key ≡ x.public ca.signer)
      × (ca.cert.not_before ≤ random.now)
      × (random.now + 3650 * 24 * hour ≤ ca.cert.not_after)
ensure_ca-load x random name host dir g a h =
    let s = generates host dir a in
    let (crt, key, e, c, k) =
      generate-ok host dir host.generated
        (ap (λ (q : Dir × Result Error (Unit {0})). q.1) (sym s) ∙ h) in
    let (ca, l, n, p, b, t) =
      generate_ca-load x random name crt key (pair_of-some _ _ (sym g ∙ e)) in
    (
      crt,
      key,
      ca,
      ap (λ (q : Dir × Result Error (Unit {0})). q.0.ca_crt) s ∙ c,
      ap (λ (q : Dir × Result Error (Unit {0})). q.0.ca_key) s ∙ k,
      l,
      n,
      p,
      b,
      t,
    )
