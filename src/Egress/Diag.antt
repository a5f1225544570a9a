-- ===== src/Egress/Diag.antt =====
-- ci/egress/diag/main.go: the TLS server that shows which requests a device sends past the proxy. Keys,
-- certificates and PEM are parameters; a failure that ends the process is `none`. A request is one
-- step.
pub mod Dumps
pub mod Hits
use cc_mysub.Base.{
  ℕ, zero, suc, ◌+◌, ◌*◌, ◌-◌, ◌/◌, ◌%◌, ◌<◌, Bytes, codes, Bool, true, false, ◌&&◌, ◌||◌, ◌==◌,
  ltb, not, is_empty, length, take, map, Dict, lookup, insert, List, [], ◌∷◌, ◌++◌, Option, none,
  some, if◌then◌else◌,
}
use cc_mysub.Egress.Sorting.{sort}
use cc_mysub.Egress.Keys.{keys}

abbrev pub env_or : Bytes → Bytes → Bytes
env_or value default = if is_empty value then default else value

-- loadCA: the parsed certificate, and the RSA key. A PKCS8 key of another type ends the process
-- (`some none`), as every file that does not parse.
pub record Keys (Cert Key : Type 0) : Type 0 where
  pub pem_decode : Bytes → Option Bytes
  pub parse_certificate : Bytes → Option Cert
  pub parse_pkcs8 : Bytes → Option (Option Key)
  pub parse_pkcs1 : Bytes → Option Key

module _ {Cert Key : Type 0} (x : Keys Cert Key) where
  abbrev rsa_key : Option (Option Key) → Option Key → Option Key
  rsa_key (some key) other = key
  rsa_key none other = other

  abbrev with_key : Cert → Option Key → Option (Cert × Key)
  with_key cert none = none
  with_key cert (some key) = some (cert, key)

  abbrev with_cert : Option Cert → Bytes → Option (Cert × Key)
  with_cert none key_block = none
  with_cert (some cert) key_block =
      with_key cert (rsa_key (x.parse_pkcs8 key_block) (x.parse_pkcs1 key_block))

  abbrev with_blocks : Option Bytes → Option Bytes → Option (Cert × Key)
  with_blocks none key_block = none
  with_blocks (some b) none = none
  with_blocks (some b) (some key_block) = with_cert (x.parse_certificate b) key_block

  unfoldable pub load_ca : Option Bytes → Option Bytes → Option (Cert × Key)
  load_ca none key_file = none
  load_ca (some c) none = none
  load_ca (some c) (some k) = with_blocks (x.pem_decode c) (x.pem_decode k)

abbrev pub hour : ℕ
hour = 3_600_000_000_000

-- mintLeaf's template.
pub record Template : Type 0 where
  pub common_name : Bytes
  pub dns_names : List Bytes
  pub not_before : ℕ
  pub not_after : ℕ

abbrev pub leaf_template : Bytes → ℕ → Template
leaf_template name now = record {
  common_name = name;
  dns_names = name ∷ [];
  not_before = now - hour;
  not_after = now + 24 * hour;
}

-- getCert: `mint` signs a template.
module _ {Cert : Type 0} (mint : Template → Option Cert) where
  minted : Bytes → Dict Cert → Option Cert → Dict Cert × Option Cert
  unfolding insert
  minted name cache none = (cache, none)
  minted name cache (some c) = (insert name c cache, some c)

  cached : Bytes → ℕ → Dict Cert → Option Cert → Dict Cert × Option Cert
  unfolding minted
  cached name now cache none = minted name cache (mint (leaf_template name now))
  cached name now cache (some c) = (cache, some c)

  unfoldable pub get_cert : Bytes → ℕ → Dict Cert → Dict Cert × Option Cert
  unfolding cached lookup is_empty
  get_cert server_name now cache =
      let name = if is_empty server_name then codes "unknown.invalid" else server_name in
      cached name now cache (lookup name cache)

abbrev pub presence : Bytes → Bytes
presence s = if is_empty s then codes "no" else codes "yes"

-- The three bytes of U+2026.
abbrev pub ellipsis : Bytes
ellipsis = 0xe2 ∷ 0x80 ∷ 0xa6 ∷ []

unfoldable pub auth_state : Bytes → Bytes
unfolding is_empty
auth_state a =
    if is_empty a then codes "NONE" else if ltb 22 (length a) then take 22 a ++ ellipsis else a

-- %d; the number itself is fuel enough.
abbrev decimal_from : ℕ → ℕ → Bytes
decimal_from zero n = (b'0' + n % 10) ∷ []
decimal_from (suc fuel) n =
    let more = decimal_from fuel (n / 10) in
    if ltb n 10 then (b'0' + n) ∷ [] else more ++ (b'0' + n % 10) ∷ []

unfoldable pub decimal : ℕ → Bytes
decimal n = decimal_from n n

-- %03d
abbrev pub padded : ℕ → Bytes
padded n =
    if ltb n 10 then b'0' ∷ b'0' ∷ decimal n else if ltb n 100 then b'0' ∷ decimal n else decimal n

pub record Request : Type 0 where
  pub host : Bytes
  pub method : Bytes
  pub path : Bytes
  pub authorization : Bytes
  pub api_key : Bytes
  pub encoding : Bytes
  pub content_type : Bytes
  pub body : Bytes

pub record Hit : Type 0 where
  pub count : ℕ
  pub sample : Bytes

pub record Diag : Type 0 where
  pub hits : Dict Hit
  pub seq : ℕ
  pub dumps : List (Bytes × Bytes)

abbrev pub key_of : Request → Bytes
key_of r = r.host ++ b' ' ∷ (r.method ++ b' ' ∷ r.path)

unfoldable pub sample_of : Request → Bytes
unfolding auth_state decimal is_empty
sample_of r =
    codes "auth="
    ++ (auth_state r.authorization
        ++ (codes " x-api-key="
            ++ (presence r.api_key
                ++ (codes " clen="
                    ++ (decimal (length r.body)
                        ++ (codes " enc="
                            ++ (presence r.encoding ++ (codes " ctype=" ++ r.content_type))))))))

-- A key without a hit has &hit{}.
abbrev pub hit_of : Option Hit → Hit
hit_of none = record { count = 0; sample = [] }
hit_of (some h) = h

unfoldable pub record_hit : Request → Dict Hit → Dict Hit
unfolding sample_of lookup insert
record_hit r hits =
    insert (key_of r)
      (record { count = suc (hit_of (lookup (key_of r) hits)).count; sample = sample_of r }) hits

-- The replacer of "/", ":" and " ".
abbrev pub safe : ℕ → ℕ
safe c = if c == b'/' || (c == b':' || c == b' ') then b'_' else c

abbrev pub dump_name : ℕ → Request → Bytes
dump_name n r = padded n ++ b'_' ∷ (map safe (r.host ++ r.path) ++ codes ".body")

-- The handler, with whether DIAG_DUMP_DIR is set; it answers 200 with "{}".
unfoldable pub handle : Bool → Request → Diag → Diag
unfolding record_hit is_empty
handle dumping r d =
    let hit = record d { hits = record_hit r d.hits } in
    if dumping && not (is_empty r.body)
    then record hit { seq = suc d.seq; dumps = (dump_name (suc d.seq) r, r.body) ∷ d.dumps }
    else hit

unfoldable pub handle_all : Bool → List Request → Diag → Diag
unfolding handle
handle_all dumping [] d = d
handle_all dumping (r ∷ rs) d = handle_all dumping rs (handle dumping r d)

-- What is printed on a signal: the keys in order, each with its hit.
unfoldable pub printed : Dict Hit → List (Bytes × Hit)
unfolding sort lookup
printed hits = map (λ k. (k, hit_of (lookup k hits))) (sort (keys hits))
