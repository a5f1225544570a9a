-- ===== src/Proxy/Chain.antt =====
-- The serving chain of internal/proxy/forward.go and internal/proxy/middleware.go: conditionalAuth,
-- RateLimitByDevice, AccessLog and forwardSwap, one request at a time. What net/http does around them
-- is the argument `Net`: the header rewriting of httputil.ReverseProxy before Rewrite, and what the
-- default transport makes of each attempt, with the copying of its answer. The proxy's own transport
-- is nil, as main passes it, so that forwardSwap puts retryTransport in its place.
pub mod Swap
pub mod Passes
pub mod Attempts
pub mod Effects
pub mod Traces
pub mod Limit
use cc_mysub.Base.{
  ℕ, suc, ◌+◌, Bytes, codes, Bool, true, false, not, ◌||◌, ◌==◌, is_empty, has_prefix, ℤ, pos,
  is_positive, map, List, [], ◌∷◌, ◌++◌, Option, none, some, if◌then◌else◌,
}
use cc_mysub.Http.{Header, get, set, del, authorization, x_api_key}
use cc_mysub.Auth.Token.{has_inbound_credential, bearer}
use cc_mysub.Auth.Store.{Device}
use cc_mysub.Config.{Upstream, pick_token}
use cc_mysub.RateLimit.{Limiter, allow}
use cc_mysub.Proxy.Baseline.{check_inbound_baseline, check_outbound_baseline}
use cc_mysub.Proxy.Usage.{Usage, Decoder}
use cc_mysub.Proxy.Retry.{Body, Stream, Outcome, round_trip}
use cc_mysub.Proxy.Capture

-- The body is `none` where the content length is 0, so that ReverseProxy sends no body.
pub record Request : Type 0 where
  pub method : Bytes
  pub scheme : Bytes
  pub url_host : Bytes
  pub path : Bytes
  pub host : Bytes
  pub header : Header
  pub body : Option Bytes

-- The request's context: the device of the connection, and the token that conditionalAuth chose.
pub record Context : Type 0 where
  pub device : Option Device
  pub real_token : Option Bytes

-- What a handler gives its writer. It is aborted where copying the upstream's answer broke off behind
-- the status: ReverseProxy then panics with http.ErrAbortHandler, and the body is what came before.
pub record Response : Type 0 where
  pub status : ℕ
  pub header : Header
  pub body : Bytes
  pub aborted : Bool

-- The request that goes to the transport. An empty Host header means that of the URL.
pub record Outbound : Type 0 where
  pub method : Bytes
  pub scheme : Bytes
  pub url_host : Bytes
  pub host : Bytes
  pub path : Bytes
  pub header : Header
  pub body : Option Bytes

-- http.DefaultTransport answers the attempts of a request, `none` for an error, and reads some bytes of
-- its body.
pub record Net : Type 0 where
  pub prepare : Header → Header
  pub attempt : ℕ → Outbound → Option Response × ℕ

pub record AccessRecord : Type 0 where
  pub device : Bytes
  pub method : Bytes
  pub path : Bytes
  pub status : ℕ
  pub usage : Usage
  pub inbound_warns : List Bytes
  pub outbound_warn : Bytes

-- What the handlers change: the buckets, the access log, the requests given to the proxy's transport to
-- be sent upstream, and the attempts that it makes for them; newest first.
pub record World : Type 0 where
  pub limiter : Limiter
  pub log : List AccessRecord
  pub sent : List Outbound
  pub attempts : List Outbound

abbrev pub Handler : Type 0
Handler = Context → Request → World → World × Response

-- writeJSONError
unfoldable pub json_error : ℕ → Bytes → Bytes → Response
json_error status code msg = record {
  status = status;
  header = (codes "Content-Type", codes "application/json" ∷ []) ∷ [];
  body =
      codes "{\"error\":{\"code\":\""
      ++ (code ++ (codes "\",\"message\":\"" ++ (msg ++ codes "\"}}")));
  aborted = false;
}

abbrev pub no_device : Response
no_device =
    json_error 502 (codes "no_device") (codes "authenticated connection missing device identity")

abbrev pub no_upstream_token : Response
no_upstream_token =
    json_error 502 (codes "no_upstream_token") (codes "no upstream token for device")

abbrev pub upstream_error : Response
upstream_error = json_error 502 (codes "upstream_error") (codes "upstream request failed")

abbrev pub rate_limited : Response
rate_limited = json_error 429 (codes "rate_limited") (codes "too many requests")

swap_token : Handler → Context → Request → World → Bytes → World × Response
unfolding is_empty
swap_token next ctx r w real =
    if is_empty real
    then (w, no_upstream_token)
    else next (record ctx { real_token = some real }) r w

pub with_device : Upstream → Handler → Context → Request → World → Option Device → World × Response
unfolding swap_token pick_token
with_device up next ctx r w none = (w, no_device)
with_device up next ctx r w (some d) =
    if is_empty d.label then (w, no_device) else swap_token next ctx r w (pick_token up d.upstream)

unfoldable pub conditional_auth : Upstream → Handler → Handler
unfolding with_device has_inbound_credential
conditional_auth up next ctx r w =
    if not (has_inbound_credential r.header)
    then next ctx r w
    else with_device up next ctx r w ctx.device

-- rateLimitExemptPrefixes
unfoldable pub is_exempt : Bytes → Bool
unfolding has_prefix
is_exempt path = has_prefix path (codes "/api/") || has_prefix path (codes "/mcp-registry")

-- A missing device is the zero Device.
abbrev pub label_of : Option Device → Bytes
label_of none = []
label_of (some d) = d.label

-- DeviceLabel of internal/proxy/middleware.go.
abbrev pub device_label : Context → Bytes
device_label ctx = label_of ctx.device

unfoldable pub per_minute_of : ℕ → Option Device → ℤ
unfolding is_positive
per_minute_of default none = pos default
per_minute_of default (some d) = if is_positive d.rate_limit then d.rate_limit else pos default

limited : Handler → Context → Request → World → Bool × Limiter → World × Response
limited next ctx r w (ok, l) =
    let w' = record w { limiter = l } in if ok then next ctx r w' else (w', rate_limited)

unfoldable pub rate_limit_by_device : ℕ → ℕ → Handler → Handler
unfolding limited per_minute_of allow is_exempt
rate_limit_by_device default now next ctx r w =
    if is_exempt r.path
    then next ctx r w
    else limited next ctx r w
        (allow w.limiter (label_of ctx.device) (per_minute_of default ctx.device) now)

pub record_of : (Response → Usage) → Context → Request → Response → AccessRecord
unfolding check_inbound_baseline check_outbound_baseline
record_of usage ctx r resp = record {
  device = device_label ctx;
  method = r.method;
  path = r.path;
  status = resp.status;
  usage = usage resp;
  inbound_warns = check_inbound_baseline r.header;
  outbound_warn = check_outbound_baseline resp.status;
}

logged : (Response → Usage) → Context → Request → World × Response → World × Response
unfolding record_of
logged usage ctx r (w, resp) =
    (record w { log = (if resp.aborted then w.log else record_of usage ctx r resp ∷ w.log) }, resp)

-- AccessLog; `usage` is what captureWriter's usage finds in the answer. A panic of the handler passes
-- the sink by.
unfoldable pub access_log : (Response → Usage) → Handler → Handler
unfolding logged
access_log usage next ctx r w = logged usage ctx r (next ctx r w)

with_token : Header → Option Bytes → Header
unfolding is_empty set del
with_token h none = h
with_token h (some real) =
    if is_empty real then h else del (set h authorization (bearer ++ real)) x_api_key

-- Rewrite of forwardSwap.
unfoldable pub rewrite : Net → Context → Request → Outbound
unfolding with_token is_empty
rewrite net ctx r = record {
  method = r.method;
  scheme = (if is_empty r.scheme then codes "https" else r.scheme);
  url_host = (if is_empty r.url_host then r.host else r.url_host);
  host = [];
  path = r.path;
  header = with_token (net.prepare r.header) ctx.real_token;
  body = r.body;
}

pub answered : Option Response → Response
answered none = upstream_error
answered (some resp) = resp

-- The body of a server's request has no GetBody.
abbrev pub stream_of : Option Bytes → Body
stream_of none = none
stream_of (some b) = some (record { bytes = b; get_body = none })

abbrev pub bytes_of : Body → Option Bytes
bytes_of none = none
bytes_of (some s) = some s.bytes

abbrev pub with_body : Outbound → Body → Outbound
with_body out b = record out { body = bytes_of b }

-- In milliseconds.
abbrev pub retry_delays : List ℕ
retry_delays = 0 ∷ 200 ∷ 600 ∷ []

-- retryTransport above http.DefaultTransport.
unfoldable pub transport : Net → Outbound → Outcome Response
unfolding round_trip
transport net out =
    round_trip (λ i b. net.attempt i (with_body out b)) retry_delays (stream_of out.body)

sending : Outbound → World → Outcome Response → World × Response
unfolding answered
sending out w o = (
  record w { sent = out ∷ w.sent; attempts = map (with_body out) o.sent ++ w.attempts },
  answered o.answer,
)

-- The transport's error goes to the ErrorHandler.
unfoldable pub forward_swap : Net → Handler
unfolding rewrite sending transport
forward_swap net ctx r w = sending (rewrite net ctx r) w (transport net (rewrite net ctx r))

abbrev pub default_per_minute : ℕ
default_per_minute = 120

-- The handler that NewForwardProxy builds.
unfoldable pub serve : Upstream → Net → (Response → Usage) → ℕ → Handler
unfolding conditional_auth rate_limit_by_device access_log forward_swap
serve up net usage now =
    conditional_auth up
      (rate_limit_by_device default_per_minute now (access_log usage (forward_swap net)))

-- What AccessLog finds in an answer that is written in the given pieces.
unfoldable pub captured_usage :
    (Bytes → Option Bytes) → Decoder → (Response → List Bytes) → Response → Usage
unfolding Capture.usage Capture.read_from Capture.write_header
captured_usage gunzip decode pieces resp = Capture.usage gunzip decode (
    Capture.read_from (Capture.write_header (Capture.new_capture resp.header) resp.status)
      (pieces resp))
