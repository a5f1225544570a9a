-- ===== src/DeviceInit/Pasted.antt =====
-- The add-device command that device-init prints, given to add-device.
use cc_mysub.Base.{Bytes, is_empty, err, Option, none, some, [], ◌≡◌, refl, ap, ◌∙◌}
use cc_mysub.Auth.Token.{Sha256, cert_fingerprint}
use cc_mysub.Config.{ClientConfig}
use cc_mysub.DeviceInit.{Dir, Attempt, Exit, print_enroll, present, reprint, run_device_init}
use cc_mysub.Enroll.{Params, label_required, resolve}

unlabelled :
    (def : Option ClientConfig) (p : Params)
    → resolve def (record p { label = [] }) ≡ err label_required
unfolding resolve is_empty
unlabelled none p = refl
unlabelled (some c) p = refl

reprinted :
    (sha : Sha256) (decode : Bytes → Option Bytes) (a : Attempt) (dir : Dir) (k c der : Bytes)
    → dir.key ≡ some k
    → dir.crt ≡ some c
    → decode c ≡ some der
    → (run_device_init sha decode a dir).1 ≡ print_enroll sha der a.label
unfolding run_device_init
reprinted sha decode a dir k c der ek ec d = by_files dir.key dir.crt ek ec
  where
    by_files :
        (x y : Option Bytes)
        → x ≡ some k
        → y ≡ some c
        → (present sha decode a dir x y).1 ≡ print_enroll sha der a.label
    by_files none y ex ey = cc
    by_files (some x) none ex ey = cc
    by_files (some x) (some y) ex ey =
        let same : y ≡ c = cc in
        unfold present in
        (ap (λ z. reprint sha a.label (decode z)) same ∙ ap (reprint sha a.label) d)

-- Without --label, a run on an existing pair prints a command that add-device refuses.
pub reprint-label_required :
    (sha : Sha256) (decode : Bytes → Option Bytes) (a : Attempt) (dir : Dir) (k c der : Bytes)
    (def : Option ClientConfig) (p : Params)
    → a.label ≡ []
    → dir.key ≡ some k
    → dir.crt ≡ some c
    → decode c ≡ some der
    → ((run_device_init sha decode a dir).1.printed ≡ some (cert_fingerprint sha der))
      × (resolve def (record p { label = (run_device_init sha decode a dir).1.label })
          ≡ err label_required)
reprint-label_required sha decode a dir k c der def p l ek ec d =
    let e = reprinted sha decode a dir k c der ek ec d in
    (
      ap (λ (x : Exit). x.printed) e,
      ap (λ (x : Exit). resolve def (record p { label = x.label })) e
          ∙ ap (λ x. resolve def (record p { label = x })) l
          ∙ unlabelled def p,
    )
