-- ===== src/DeviceInit/Identity.antt =====
-- The identity that cmd/cc-mysub/deviceinit.go leaves in its directory.
use cc_mysub.Base.{
  Bytes, Bool-cases, Option, none, some, List, [], ◌∷◌, All, ◌≡◌, ◌⊎◌, inl, inr, refl, ap, ◌∙◌,
}
use cc_mysub.Auth.Token.{Sha256, cert_fingerprint}
use cc_mysub.DeviceInit.{
  Dir, Pair, Pem, Attempt, Exit, reprint, save, create, present, run_device_init,
}

module _ (sha : Sha256) (pem : Pem) where
  -- No certificate, or one of the key beside it.
  abbrev pub IsPaired : Dir → Type 0
  IsPaired dir =
      (dir.crt ≡ none)
      ⊎ ((k : Bytes) × (c : Bytes) × (dir.key ≡ some k) × (dir.crt ≡ some c) × pem.IsOf k c)

  -- Whatever is printed is the fingerprint of the certificate that is there.
  abbrev pub Prints : Dir → Exit → Type 0
  Prints dir e =
      (e.printed ≡ none)
      ⊎ ((c : Bytes) × (der : Bytes) × (dir.crt ≡ some c)
          × (pem.decode c ≡ some der)
          × (e.printed ≡ some (cert_fingerprint sha der)))

  abbrev pub Made : Option Pair → Type 0
  Made none = Unit
  Made (some p) = pem.Makes p

  abbrev pub Good : Dir × Exit → Type 0
  Good (dir, e) = IsPaired dir × Prints dir e

  abbrev pub runs : List Attempt → Dir → Dir
  runs [] dir = dir
  runs (a ∷ more) dir = runs more (run_device_init sha pem.decode a dir).0

  -- Where there is no certificate, or no key for one.
  save-Good :
      (a : Attempt) (dir : Dir) (o : Option Pair)
      → dir.crt ≡ none
      → Made o
      → Good (save sha a dir o)
  unfolding save
  save-Good a dir none n m = (inl n, inl refl)
  save-Good a dir (some p) n m = elim (Bool-cases a.writes_key) [
    | inr e ↦ rw e (inl n, inl refl)
    | inl e ↦ elim (Bool-cases a.writes_crt) [
      | inr f ↦ rw (e, f) (inl n, inl refl)
      | inl f ↦
          rw (e, f)
            (
              inr (p.key_pem, p.crt_pem, refl, refl, pem.makes-IsOf p m),
              inr (p.crt_pem, p.der, refl, pem.decode-makes p m, refl),
            )
    ]
  ]

  create-Good : (a : Attempt) (dir : Dir) → dir.crt ≡ none → Made a.made → Good (create sha a dir)
  unfolding create
  create-Good a dir n m = elim (Bool-cases a.makes_dir) [
    | inl e ↦ rw e (save-Good a dir a.made n m)
    | inr e ↦ rw e (inl n, inl refl)
  ]

  reprint-Prints :
      (label : Bytes) (dir : Dir) (c : Bytes) (o : Option Bytes)
      → dir.crt ≡ some c
      → pem.decode c ≡ o
      → Prints dir (reprint sha label o)
  reprint-Prints label dir c none e d = inl refl
  reprint-Prints label dir c (some der) e d = inr (c, der, e, d, refl)

  present-Good :
      (a : Attempt) (dir : Dir) (k c : Option Bytes)
      → dir.key ≡ k
      → dir.crt ≡ c
      → IsPaired dir
      → Made a.made
      → Good (present sha pem.decode a dir k c)
  unfolding present
  present-Good a dir (some k) (some c) ek ec p m =
      (p, reprint-Prints a.label dir c (pem.decode c) ec refl)
  present-Good a dir (some k) none ek ec p m = create-Good a dir ec m
  present-Good a dir none none ek ec p m = create-Good a dir ec m
  present-Good a dir none (some c) ek ec (inl n) m = cc
  present-Good a dir none (some c) ek ec (inr (k, d, e, f, g)) m = cc

  run-Good :
      (a : Attempt) (dir : Dir)
      → IsPaired dir
      → Made a.made
      → Good (run_device_init sha pem.decode a dir)
  unfolding run_device_init
  run-Good a dir p m = present-Good a dir dir.key dir.crt refl refl p m

  runs-IsPaired :
      (xs : List Attempt) (dir : Dir)
      → IsPaired dir
      → All (λ (a : Attempt). Made a.made) xs
      → IsPaired (runs xs dir)
  runs-IsPaired [] dir p h = p
  runs-IsPaired (a ∷ xs) dir p (m, h) =
      runs-IsPaired xs (run_device_init sha pem.decode a dir).0 (run-Good a dir p m).0 h

  -- From a directory without device.key and device.crt, after any number of runs of device-init and one
  -- more, whichever of their steps fail: there is no certificate, or it is the certificate of the key
  -- beside it; and the last run printed nothing, or the fingerprint of the certificate that is there.
  pub run-Good_later :
      (xs : List Attempt) (a : Attempt)
      → All (λ (x : Attempt). Made x.made) xs
      → Made a.made
      → Good (run_device_init sha pem.decode a (runs xs (record { key = none; crt = none })))
  run-Good_later xs a h m =
      run-Good a (runs xs (record { key = none; crt = none }))
        (runs-IsPaired xs (record { key = none; crt = none }) (inl refl) h) m

  -- Once device.key and device.crt exist, no number of runs changes either.
  pub runs_keep :
      (xs : List Attempt) (dir : Dir) (k c : Bytes)
      → dir.key ≡ some k
      → dir.crt ≡ some c
      → runs xs dir ≡ dir
  unfolding run_device_init
  runs_keep [] dir k c ek ec = refl
  runs_keep (a ∷ xs) dir k c ek ec =
      ap (λ (d : Dir). runs xs d) (same dir.key dir.crt ek ec) ∙ runs_keep xs dir k c ek ec
    where
      same :
          (ok oc : Option Bytes)
          → ok ≡ some k
          → oc ≡ some c
          → (present sha pem.decode a dir ok oc).0 ≡ dir
      same none oc e f = cc
      same (some x) none e f = cc
      same (some x) (some y) e f = unfold present in refl
