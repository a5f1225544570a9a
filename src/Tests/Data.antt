-- ===== src/Tests/Data.antt =====
-- Concrete devices, certificates, requests and files for the tests.
use cc_mysub.Base.{
  ℕ, zero, suc, ◌<◌, Bytes, codes, true, false, All, length, [], ◌∷◌, none, some, ◌≡◌, refl, pos,
  arith,
}
use cc_mysub.Http.{Header, authorization}
use cc_mysub.Auth.Token.{Sha256}
use cc_mysub.Auth.Store.{Device, DeviceStore}
use cc_mysub.Config.{Upstream}
use cc_mysub.Proxy.Usage.{Usage, no_usage}
use cc_mysub.Proxy.Handle.{ForwardProxy, Conn}
use cc_mysub.Proxy.Chain.{Request, Context, Response, Net, World}
use cc_mysub.Stream.Laws.{one_line}

abbrev pub letters : ℕ → Bytes
letters zero = []
letters (suc n) = b'a' ∷ letters n

pub length-letters : (n : ℕ) → length (letters n) ≡ n
length-letters zero = refl
length-letters (suc n) = rw (length-letters n) refl

pub letters_bytes : (n : ℕ) → All (λ b. b < 256) (letters n)
letters_bytes zero = tt
letters_bytes (suc n) = (omega arith, letters_bytes n)

pub letters-one_line : (n : ℕ) → one_line (letters n) ≡ true
letters-one_line zero = refl
letters-one_line (suc n) = letters-one_line n

-- A digest of the right form.
abbrev pub toy_sha : Sha256
toy_sha = record {
  sum = λ m. letters 32;
  length-sum = λ m. length-letters 32;
  sum_bytes = λ m. letters_bytes 32;
}

-- The fingerprint that it gives, and another one.
abbrev pub laptop_fp : Bytes
laptop_fp = codes "6161616161616161616161616161616161616161616161616161616161616161"

abbrev pub phone_fp : Bytes
phone_fp = codes "00112233445566778899aabbccddeeff00112233445566778899aabbccddeeff"

abbrev pub laptop : Device
laptop = record {
  label = codes "laptop";
  cert_sha256 = laptop_fp;
  rate_limit = pos 2;
  upstream = codes "max";
}

abbrev pub phone : Device
phone = record { label = codes "phone"; cert_sha256 = phone_fp; rate_limit = pos 0; upstream = [] }

abbrev pub anthropic : Bytes
anthropic = codes "api.anthropic.com"

abbrev pub laptop_store : DeviceStore
laptop_store = record { by_hash = (laptop_fp, laptop) ∷ []; last_mod = 5 }

abbrev pub proxy : ForwardProxy
proxy = record { auth = laptop_store; allow = (anthropic, true) ∷ [] }

abbrev pub conn_of : Bytes → Conn
conn_of input = record { cert = some (codes "der"); input = input; accepts_write = true }

abbrev pub upstream : Upstream
upstream = record {
  oauth_token = [];
  oauth_tokens = record { id = codes "max"; token = codes "secret" } ∷ [];
}

abbrev pub accepted : Response
accepted = record { status = 200; header = []; body = codes "{}"; aborted = false }

abbrev pub net : Net
net = record { prepare = λ h. h; attempt = λ i out. (some accepted, 2) }

abbrev pub usage : Response → Usage
usage resp = no_usage

abbrev pub context : Context
context = record { device = some laptop; real_token = none }

abbrev pub world : World
world = record { limiter = []; log = []; sent = []; attempts = [] }

abbrev pub request_of : Header → Bytes → Request
request_of h path = record {
  method = codes "POST";
  scheme = [];
  url_host = [];
  path = path;
  host = anthropic;
  header = h;
  body = some (codes "{}");
}

abbrev pub placeholder : Header
placeholder = (authorization, codes "Bearer placeholder" ∷ []) ∷ []

abbrev pub ask : Request
ask = request_of placeholder (codes "/v1/messages")

abbrev pub telemetry : Request
telemetry = request_of [] (codes "/v1/metrics")
