-- ===== src/Tests/Registry.antt =====
-- Tests of the list of devices over several commands: a codec that writes every list.
use cc_mysub.Base.{
  zero, suc, Bytes, codes, Bool, true, false, is_empty, trim_space, ℤ, pos, negsuc, ok, err, equal,
  List, [], ◌∷◌, ◌++◌, append_assoc, Option, none, some, ◌≡◌, refl, ap, subst, append-nil, ◌∙◌,
}
use cc_mysub.Auth.Store.{Device}
use cc_mysub.Auth.Token.{canonical_fingerprint}
use cc_mysub.Enroll.{content, absent, read_devices, duplicate_label}
use cc_mysub.Enroll.Run.{Dir, Host, complete, Flags, run}
use cc_mysub.Enroll.Run.Registry.{Command, run_all, replay, run_refines}
use cc_mysub.Tests.Data.{laptop_fp, phone_fp, toy_sha}
use cc_mysub.Enroll.Devices.{Codec}
use cc_mysub.Enroll.Devices.Registry.{Total, Shows}

-- Each word is a list of successors that a zero ends.
abbrev pub word : Bytes → Bytes
word [] = 0 ∷ []
word (c ∷ w) = suc c ∷ word w

abbrev rate : ℤ → Bytes
rate (pos n) = n ∷ []
rate (negsuc n) = n ∷ 0 ∷ []

abbrev row : Device → Bytes
row d = word d.label ++ (word d.cert_sha256 ++ (word (rate d.rate_limit) ++ word d.upstream))

abbrev pub all_rows : List Device → Bytes
all_rows [] = []
all_rows (d ∷ ds) = row d ++ all_rows ds

-- The words of a document; what stands behind the last zero is dropped.
abbrev pub words : Bytes → Bytes → List Bytes
words cur [] = []
words cur (zero ∷ s) = cur ∷ words [] s
words cur (suc c ∷ s) = words (cur ++ c ∷ []) s

abbrev unrate : Bytes → ℤ
unrate (n ∷ []) = pos n
unrate (n ∷ m ∷ s) = negsuc n
unrate [] = pos 0

abbrev devices : List Bytes → List Device
devices (a ∷ b ∷ c ∷ d ∷ rest) =
    record { label = a; cert_sha256 = b; rate_limit = unrate c; upstream = d } ∷ devices rest
devices _ = []

abbrev list_decode : Bytes → Option (List Device)
list_decode [] = none
list_decode (c ∷ s) = some (devices (words [] s))

abbrev list_encode : List Device → Option Bytes
list_encode ds = some (b'[' ∷ all_rows ds)

pub words-word : (cur w s : Bytes) → words cur (word w ++ s) ≡ (cur ++ w) ∷ words [] s
words-word cur [] s = simp append-nil
words-word cur (c ∷ w) s =
    words-word (cur ++ c ∷ []) w s ∙ ap (λ x. x ∷ words [] s) (append_assoc cur (c ∷ []) w)

words-row :
    (d : Device) (s : Bytes)
    → words [] (row d ++ s) ≡ d.label ∷ d.cert_sha256 ∷ rate d.rate_limit ∷ d.upstream ∷ words [] s
words-row d s = simp (append_assoc, words-word)

unrate-rate : (z : ℤ) → unrate (rate z) ≡ z
unrate-rate (pos n) = refl
unrate-rate (negsuc n) = refl

all_rows_read :
    (ds : List Device) (s : Bytes)
    → devices (words [] s) ≡ []
    → devices (words [] (all_rows ds ++ s)) ≡ ds
all_rows_read [] s e = e
all_rows_read (d ∷ ds) s e =
    ap devices
      (ap (words []) (append_assoc (row d) (all_rows ds) s) ∙ words-row d (all_rows ds ++ s))
    ∙ ap (λ x. record d { rate_limit = x } ∷ devices (words [] (all_rows ds ++ s)))
        (unrate-rate d.rate_limit)
    ∙ ap (λ x. d ∷ x) (all_rows_read ds s e)

pub list_decode-encode :
    (ds : List Device) (b : Bytes) → list_encode ds ≡ some b → list_decode (b ++ 10 ∷ []) ≡ some ds
list_decode-encode ds b h =
    let same : b'[' ∷ all_rows ds ≡ b = cc in
    subst (λ x. list_decode (x ++ 10 ∷ []) ≡ some ds) same
      (ap some (all_rows_read ds (10 ∷ []) refl))

abbrev pub list_codec : Codec
list_codec = record {
  decode = list_decode;
  encode = list_encode;
  decode-encode = list_decode-encode;
}

not_blank : (s : Bytes) → is_empty (trim_space (b'[' ∷ s)) ≡ false
unfolding is_empty trim_space
not_blank [] = refl
not_blank (a ∷ []) = refl
not_blank (a ∷ b ∷ s) = refl

list_codec-Total : Total list_codec
list_codec-Total rows = (b'[' ∷ all_rows rows, refl, not_blank (all_rows rows ++ 10 ∷ []))

abbrev pub writer : Host
writer = record {
  generated = none;
  write_key = complete;
  write_crt = complete;
  write_list = complete;
}

abbrev pub config_dir : Dir
config_dir = record {
  ca_crt = content (codes "crt");
  ca_key = content (codes "key");
  devices = absent;
}

abbrev pub flags : Bool → Bytes → Bytes → Flags
flags rotates label fp = record {
  params = record {
    label = label;
    public_host = codes "proxy.example";
    sub_type = [];
    rate_limit = pos 2;
    upstream = codes "max";
  };
  rotate = rotates;
  fingerprint = fp;
  client_cert = [];
}

abbrev command : Bool → Bytes → Bytes → Command
command rotates label fp = record {
  flags = flags rotates label fp;
  config = ok none;
  cert = absent;
}

-- A rotation with no list, an addition, the same addition again, and a rotation.
abbrev commands : List Command
commands =
    command true (codes "laptop") laptop_fp
    ∷ command false (codes "laptop") laptop_fp
    ∷ command false (codes "laptop") phone_fp
    ∷ command true (codes "laptop") phone_fp
    ∷ []

commands_answers :
    (run_all toy_sha (λ b. none) list_codec writer commands config_dir).1
    ≡ err read_devices ∷ ok laptop_fp ∷ err duplicate_label ∷ ok phone_fp ∷ []
unfolding run canonical_fingerprint equal
commands_answers = refl

run_refines_example :
    Shows list_codec
      (run_all toy_sha (λ b. none) list_codec writer commands config_dir).0.devices
      (replay toy_sha (λ b. none) commands none).0
    × ((run_all toy_sha (λ b. none) list_codec writer commands config_dir).1
        ≡ (replay toy_sha (λ b. none) commands none).1)
run_refines_example =
    run_refines toy_sha (λ b. none) list_codec list_codec-Total writer refl commands (codes "crt")
      config_dir none refl refl
