-- ===== src/Proxy/Capture.antt =====
-- captureWriter of internal/proxy/middleware.go: it passes an answer through and keeps a bounded copy.
-- gzip is a parameter: what reading the whole stream gives, `none` if it does not begin as gzip.
pub mod Tee
pub mod Copying
use cc_mysub.Base.{
  ℕ, ◌+◌, Bytes, codes, Bool, true, false, not, ltb, length, is_empty, contains, List, [], ◌∷◌,
  ◌++◌, Option, none, some, if◌then◌else◌,
}
use cc_mysub.Http.{Header, get}
use cc_mysub.Proxy.Usage.{Usage, Decoder, sniff_usage_json, sniff_usage_sse}

abbrev pub capture_cap : ℕ
capture_cap = 1048576

-- What the writer below has been given: status and header, then the bytes.
pub record Written : Type 0 where
  pub status : Option ℕ
  pub body : Bytes

pub record CaptureWriter : Type 0 where
  pub header : Header
  pub status : ℕ
  pub buf : Bytes
  pub is_sse : Bool
  pub gzip_enc : Bool
  pub capped : Bool
  pub wrote_hd : Bool
  pub below : Written

-- AccessLog starts with status 200; the header map is the one that the handler fills in.
abbrev pub new_capture : Header → CaptureWriter
new_capture h = record {
  header = h;
  status = 200;
  buf = [];
  is_sse = false;
  gzip_enc = false;
  capped = false;
  wrote_hd = false;
  below = record { status = none; body = [] };
}

unfoldable pub write_header : CaptureWriter → ℕ → CaptureWriter
unfolding get contains
write_header c code = record c {
  status = code;
  is_sse = contains (get c.header (codes "Content-Type")) (codes "text/event-stream");
  gzip_enc = contains (get c.header (codes "Content-Encoding")) (codes "gzip");
  wrote_hd = true;
  below = record { status = some code; body = c.below.body };
}

-- Behind the header: the copy, up to and with the write that passes the cap, and the bytes below.
tee : CaptureWriter → Bytes → CaptureWriter
tee c p =
    let b = c.buf ++ p in
    record c {
      buf = (if c.capped then c.buf else b);
      capped = (if c.capped then true else ltb capture_cap (length b));
      below = record { status = c.below.status; body = c.below.body ++ p };
    }

unfoldable pub write : CaptureWriter → Bytes → CaptureWriter
unfolding write_header tee
write c p = tee (if c.wrote_hd then c else write_header c 200) p

-- The loop of ReadFrom over the pieces that its reads give.
unfoldable pub read_from : CaptureWriter → List Bytes → CaptureWriter
unfolding write
read_from c [] = c
read_from c (p ∷ ps) = read_from (if is_empty p then c else write c p) ps

abbrev decoded : Bytes → Option Bytes → Bytes
decoded b none = b
decoded b (some dec) = if is_empty dec then b else dec

unfoldable pub usage : (Bytes → Option Bytes) → Decoder → CaptureWriter → Usage
unfolding sniff_usage_sse sniff_usage_json is_empty
usage gunzip decode c =
    let data' = (if c.gzip_enc then decoded c.buf (gunzip c.buf) else c.buf) in
    if c.is_sse then sniff_usage_sse decode data' else sniff_usage_json decode data'
