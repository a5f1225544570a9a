-- ===== src/Tests/Identity.antt =====
-- Tests of device-init.
use cc_mysub.Base.{codes, Bool, true, false, none, some, [], ◌∷◌, ◌≡◌, refl, sym, ap}
use cc_mysub.DeviceInit.{Dir, Pair, Pem, Attempt, run_device_init}
use cc_mysub.DeviceInit.Identity.{Good, runs, run-Good_later}
use cc_mysub.Tests.Data.{toy_sha}

abbrev pair : Pair
pair = record { key_pem = codes "key"; crt_pem = codes "crt"; der = codes "der" }

decode-pair :
    (p : Pair)
    → (p.key_pem ≡ codes "key") × (p.crt_pem ≡ codes "crt") × (p.der ≡ codes "der")
    → some (codes "der") ≡ some p.der
decode-pair p (k, c, d) = ap (λ x. some x) (sym d)

-- It knows this pair only.
abbrev toy_pem : Pem
toy_pem = record {
  decode = λ b. some (codes "der");
  IsOf = λ k c. (k ≡ codes "key") × (c ≡ codes "crt");
  Makes = λ p. (p.key_pem ≡ codes "key") × (p.crt_pem ≡ codes "crt") × (p.der ≡ codes "der");
  decode-makes = decode-pair;
  makes-IsOf = λ p m. (m.0, m.1);
}

abbrev attempt : Bool → Attempt
attempt ok = record {
  label = [];
  makes_dir = true;
  made = some pair;
  writes_key = true;
  writes_crt = ok;
}

run-Good_later_example : Good toy_sha toy_pem (
    run_device_init toy_sha toy_pem.decode
      (attempt true)
      (runs toy_sha toy_pem (attempt false ∷ []) (record { key = none; crt = none })))
run-Good_later_example =
    run-Good_later toy_sha toy_pem (attempt false ∷ []) (attempt true) ((refl, refl, refl), tt)
      (refl, refl, refl)

abbrev made : Dir
made = record { key = some (codes "key"); crt = some (codes "crt") }
