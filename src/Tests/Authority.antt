-- ===== src/Tests/Authority.antt =====
-- Tests of the certificate authority: keys are their own public keys, PEM is the bytes, and a
-- certificate is a list of its fields.
use cc_mysub.Base.{
  ℕ, ◌+◌, ◌*◌, ◌≤◌, Bytes, codes, Bool, true, false, ◌&&◌, ◌==◌, Result, ok, List, [], ◌∷◌, ◌++◌,
  Option, none, some, ◌≡◌, refl, sym, ap, subst, ◌∙◌,
}
use cc_mysub.Enroll.{absent, content}
use cc_mysub.Enroll.Run.{Dir, Host, complete, ensure_ca}
use cc_mysub.Enroll.Run.NewCa.{pair_of, ensure_ca-load}
use cc_mysub.Mitm.Authority
use cc_mysub.Mitm.Authority.{
  CaTemplate, Certificate, said, Crypto, Ca, Random, hour, load_ca, generate_ca,
}
use cc_mysub.Tests.Registry.{word, words, words-word}

abbrev bit : Bool → ℕ
bit true = 1
bit false = 0

abbrev pub der_of : CaTemplate → Bytes → Bytes
der_of t k =
    t.not_before
    ∷ t.not_after
    ∷ bit (t.basic_constraints_valid && t.is_ca)
    ∷ t.key_usage
    ∷ (word t.common_name ++ (word k ++ []))

abbrev from_words : ℕ → ℕ → ℕ → ℕ → List Bytes → Option Certificate
from_words before after ca usage (name ∷ key ∷ rest) = some (record {
  common_name = name;
  not_before = before;
  not_after = after;
  is_ca = ca == 1;
  key_usage = usage;
  public_key = key;
})
from_words before after ca usage _ = none

abbrev parse : Bytes → Option Certificate
parse (before ∷ after ∷ ca ∷ usage ∷ rest) = from_words before after ca usage (words [] rest)
parse _ = none

bit-one : (b : Bool) → (bit b == 1) ≡ b
bit-one true = refl
bit-one false = refl

parse-der : (t : CaTemplate) (k : Bytes) → parse (der_of t k) ≡ some (said t k)
parse-der t k =
    ap
      (from_words t.not_before t.not_after (bit (t.basic_constraints_valid && t.is_ca)) t.key_usage)
      (words-word [] t.common_name (word k ++ [])
        ∙ ap (λ ws. t.common_name ∷ ws) (words-word [] k []))
    ∙ ap (λ b. some (record (said t k) { is_ca = b }))
        (bit-one (t.basic_constraints_valid && t.is_ca))

pub parse-create :
    (t : CaTemplate) (k der : Bytes) → some (der_of t k) ≡ some der → parse der ≡ some (said t k)
parse-create t k der h =
    let same : der_of t k ≡ der = cc in subst (λ d. parse d ≡ some (said t k)) same (parse-der t k)

abbrev pub toy_crypto : Crypto
toy_crypto = record {
  public = λ k. k;
  pem_decode = λ b. some b;
  pem_encode = λ kind b. b;
  parse_certificate = parse;
  parse_ec_private_key = λ b. some b;
  parse_pkcs8_private_key = λ b. none;
  create_certificate = λ t k. some (der_of t k);
  marshal_ec_private_key = λ k. some k;
  decode-encode = λ kind b. refl;
  parse-create = parse-create;
  parse-marshal = λ k der h. sym h;
}

abbrev pub random : Random
random = record { key = some (codes "secret"); serial = some 77; now = 9 * hour }

abbrev pub generated : Result Authority.Error (Bytes × Bytes)
generated = generate_ca toy_crypto random (codes "cc-mysub CA")

abbrev pub maker : Host
maker = record {
  generated = pair_of generated;
  write_key = complete;
  write_crt = complete;
  write_list = complete;
}

abbrev pub empty_dir : Dir
empty_dir = record { ca_crt = absent; ca_key = absent; devices = absent }

ensured : (ensure_ca maker empty_dir).1 ≡ ok tt
unfolding ensure_ca generate_ca
ensured = refl

ensure_ca-load_example :
    (crt key : Bytes) × (ca : Ca) × ((ensure_ca maker empty_dir).0.ca_crt ≡ content crt)
    × ((ensure_ca maker empty_dir).0.ca_key ≡ content key)
    × (load_ca toy_crypto crt key ≡ ok ca)
    × (ca.cert.common_name ≡ codes "cc-mysub CA")
    × (ca.cert.public_key ≡ toy_crypto.public ca.signer)
    × (ca.cert.not_before ≤ random.now)
    × (random.now + 3650 * 24 * hour ≤ ca.cert.not_after)
ensure_ca-load_example =
    ensure_ca-load toy_crypto random (codes "cc-mysub CA") maker empty_dir refl refl ensured
