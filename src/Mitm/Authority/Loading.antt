-- ===== src/Mitm/Authority/Loading.antt =====
-- Which certificates and keys LoadCA takes, and that it takes those of GenerateCA.
use cc_mysub.Base.{
  ℕ, ◌+◌, ◌*◌, ◌/◌, ◌%◌, ◌≤◌, Bytes, codes, true, false, ok, >>=-eq-ok, of_option, of_option-ok,
  Option, none, some, ◌≡◌, ◌↔◌, ◌⊎◌, inl, inr, refl, sym, ap, subst, ◌∙◌, arith,
}
use cc_mysub.Mitm.Authority.{
  Certificate, Key, said, Crypto, Ca, lacks_sign, check_ca, key_signer, Random, hour, ca_template,
  load_ca, generate_ca, decode_cert, parse_cert, decode_key, generate_key, generate_serial,
  create_cert, marshal_key,
}

-- No key usage is given, or the bit of signing certificates, the sixth, is among those that are.
abbrev pub MaySign : ℕ → Type 0
MaySign usage = (usage ≡ 0) ⊎ (usage / 32 % 2 ≡ 1)

lacks_sign_iff : (usage : ℕ) → (lacks_sign usage ≡ false) ↔ MaySign usage
lacks_sign_iff usage = (lacks_sign-no usage, lacks_sign-yes usage)
  where
    lacks_sign-no : (u : ℕ) → lacks_sign u ≡ false → MaySign u
    lacks_sign-no u h = ground arith

    lacks_sign-yes : (u : ℕ) → MaySign u → lacks_sign u ≡ false
    lacks_sign-yes u (inl e) = rw e refl
    lacks_sign-yes u (inr e) = ground arith

check_ca-ok :
    (c : Certificate) (t : Unit {0})
    → check_ca c ≡ ok t
    → (c.is_ca ≡ true) × (lacks_sign c.key_usage ≡ false)
check_ca-ok c t h = ground arith

-- An EC key, or else a PKCS8 key that can sign.
abbrev pub Signs : Option Key → Option (Option Key) → Key → Type 0
Signs ec raw k = (ec ≡ some k) ⊎ ((ec ≡ none) × (raw ≡ some (some k)))

key_signer-ok :
    (ec : Option Key) (raw : Option (Option Key)) (k : Key)
    → key_signer ec raw ≡ ok k
    → Signs ec raw k
key_signer-ok (some j) raw k h = inl cc
key_signer-ok none none k h = cc
key_signer-ok none (some none) k h = cc
key_signer-ok none (some (some j)) k h = inr (refl, cc)

Signs-ok :
    (ec : Option Key) (raw : Option (Option Key)) (k : Key)
    → Signs ec raw k
    → key_signer ec raw ≡ ok k
Signs-ok ec raw k (inl e) = rw e
Signs-ok ec raw k (inr (e, f)) = rw (e, f)

-- The PEM blocks, the certificate and the key that the two files hold.
pub record Holds (x : Crypto) (cert_pem key_pem : Bytes) (ca : Ca) : Type 0 where
  pub cert_block : Bytes
  pub key_block : Bytes
  pub decodes_cert : x.pem_decode cert_pem ≡ some cert_block
  pub parses : x.parse_certificate cert_block ≡ some ca.cert
  pub is_authority : ca.cert.is_ca ≡ true
  pub may_sign : MaySign ca.cert.key_usage
  pub decodes_key : x.pem_decode key_pem ≡ some key_block
  pub signs :
      Signs (x.parse_ec_private_key key_block) (x.parse_pkcs8_private_key key_block) ca.signer

module _ (x : Crypto) where
  load_ca-Holds : (c k : Bytes) (ca : Ca) → load_ca x c k ≡ ok ca → Holds x c k ca
  unfolding load_ca
  load_ca-Holds c k ca h =
      let (b, e1, h1) = >>=-eq-ok (of_option decode_cert (x.pem_decode c)) _ h in
      let (cert, e2, h2) = >>=-eq-ok (of_option parse_cert (x.parse_certificate b)) _ h1 in
      let (t, e3, h3) = >>=-eq-ok (check_ca cert) _ h2 in
      let (kb, e4, h4) = >>=-eq-ok (of_option decode_key (x.pem_decode k)) _ h3 in
      let (s, e5, h5) =
        >>=-eq-ok (key_signer (x.parse_ec_private_key kb) (x.parse_pkcs8_private_key kb)) _ h4 in
      let same : record { cert = cert; signer = s } ≡ ca = cc in
      let (d, f) = check_ca-ok cert t e3 in
      subst (Holds x c k) same (record {
        cert_block = b;
        key_block = kb;
        decodes_cert = of_option-ok decode_cert _ b e1;
        parses = of_option-ok parse_cert _ cert e2;
        is_authority = d;
        may_sign = (lacks_sign_iff cert.key_usage).0 f;
        decodes_key = of_option-ok decode_key _ kb e4;
        signs = key_signer-ok _ _ s e5;
      })

  Holds-load_ca : (c k : Bytes) (ca : Ca) → Holds x c k ca → load_ca x c k ≡ ok ca
  unfolding load_ca
  Holds-load_ca c k ca h = rw (
    h.decodes_cert,
    h.parses,
    h.is_authority,
    (lacks_sign_iff ca.cert.key_usage).1 h.may_sign,
    h.decodes_key,
    Signs-ok _ _ ca.signer h.signs,
  )

  -- LoadCA takes exactly the files that hold a CA's certificate that may sign, and a key.
  pub load_ca_iff : (c k : Bytes) (ca : Ca) → (load_ca x c k ≡ ok ca) ↔ Holds x c k ca
  load_ca_iff c k ca = (load_ca-Holds c k ca, Holds-load_ca c k ca)

  -- The parts of a generated pair.
  generate_ca-ok :
      (random : Random) (name crt key : Bytes)
      → generate_ca x random name ≡ ok (crt, key)
      → (k : Key) × (serial : ℕ) × (random.key ≡ some k)
        × Holds x crt key
            (record { cert = said (ca_template name serial random.now) (x.public k); signer = k })
  unfolding generate_ca
  generate_ca-ok random name crt key h =
      let (k, e1, h1) = >>=-eq-ok (of_option generate_key random.key) _ h in
      let (serial, e2, h2) = >>=-eq-ok (of_option generate_serial random.serial) _ h1 in
      let (der, e3, h3) =
        >>=-eq-ok
          (of_option create_cert (x.create_certificate (ca_template name serial random.now) k)) _
          h2 in
      let (kder, e4, h4) = >>=-eq-ok (of_option marshal_key (x.marshal_ec_private_key k)) _ h3 in
      let same : ◌≡◌ {A = Bytes × Bytes}
          (x.pem_encode (codes "CERTIFICATE") der, x.pem_encode (codes "EC PRIVATE KEY") kder)
          (crt, key) =
        cc in
      let crt_same = ap (λ (q : Bytes × Bytes). q.0) same in
      let key_same = ap (λ (q : Bytes × Bytes). q.1) same in
      (
        k,
        serial,
        of_option-ok generate_key _ k e1,
        record {
          cert_block = der;
          key_block = kder;
          decodes_cert = ap x.pem_decode (sym crt_same) ∙ x.decode-encode (codes "CERTIFICATE") der;
          parses = x.parse-create _ k der (of_option-ok create_cert _ der e3);
          is_authority = refl;
          may_sign = inr refl;
          decodes_key =
              ap x.pem_decode (sym key_same) ∙ x.decode-encode (codes "EC PRIVATE KEY") kder;
          signs = inl (x.parse-marshal k kder (of_option-ok marshal_key _ kder e4));
        },
      )

  pub generate_ca-load :
      (random : Random) (name crt key : Bytes)
      → generate_ca x random name ≡ ok (crt, key)
      → (ca : Ca) × (load_ca x crt key ≡ ok ca)
        × (ca.cert.common_name ≡ name)
        × (ca.cert.public_key ≡ x.public ca.signer)
        × (ca.cert.not_before ≤ random.now)
        × (random.now + 3650 * 24 * hour ≤ ca.cert.not_after)
  generate_ca-load random name crt key h =
      let (k, serial, e, v) = generate_ca-ok random name crt key h in
      (
        record { cert = said (ca_template name serial random.now) (x.public k); signer = k },
        Holds-load_ca crt key _ v,
        refl,
        refl,
        omega arith,
        omega arith,
      )
