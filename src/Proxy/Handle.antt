-- ===== src/Proxy/Handle.antt =====
-- ForwardProxy.handle of internal/proxy/forward.go, up to the tunnel: the outer handshake, the CONNECT
-- line and headers under their cap, the allowlist and the 200. The TLS stack is the argument `Conn`:
-- the certificate that the client presents, and the bytes that it sends through the outer session
-- until it stops or meets the read deadline.
pub mod Admission
pub mod Replies
pub mod Refusals
use cc_mysub.Base.{
  ℕ, suc, ◌+◌, Bytes, codes, Bool, true, false, not, ◌||◌, ◌==◌, ltb, length, equal, Dict, List, [],
  ◌∷◌, ◌++◌, Option, none, some, if◌then◌else◌,
}
use cc_mysub.Auth.Token.{Sha256, cert_fingerprint}
use cc_mysub.Auth.Store.{Device, DeviceStore, lookup_device}
use cc_mysub.Stream.{newline, is_blank_line, read_line, set_of, has}
use cc_mysub.Connect.Parse.{parse_connect}

abbrev pub max_connect_header_bytes : ℕ
max_connect_header_bytes = 8192

-- What handle reads of the proxy: the whitelist of devices (auth) and the allowed hosts (allow).
pub record ForwardProxy : Type 0 where
  pub auth : DeviceStore
  pub allow : Dict Bool

-- NewForwardProxy builds the set of hosts; it panics unless there is room for a connection and a
-- source of the outer certificate.
unfoldable pub new_forward_proxy : DeviceStore → List Bytes → Bool → ℕ → Option ForwardProxy
unfolding set_of
new_forward_proxy auth allow has_outer_cert max_in_flight =
    if max_in_flight == 0
    then none
    else if not has_outer_cert
    then none
    else some (record { auth = auth; allow = set_of allow [] })

pub record Conn : Type 0 where
  pub cert : Option Bytes
  pub input : Bytes
  pub accepts_write : Bool

-- Closed after these bytes, or a tunnel to the host for the device: `rest` is the stream for the inner
-- TLS, the buffered bytes first.
pub data Outcome : Type 0 where
  closed : Bytes → Outcome
  tunnel : Device → Bytes → Bytes → Outcome

abbrev pub bad_request : Bytes
bad_request = codes "HTTP/1.1 400 Bad Request\r\n\r\n"

abbrev pub forbidden : Bytes
forbidden = codes "HTTP/1.1 403 Forbidden\r\n\r\n"

pub data Drained : Type 0 where
  ended too_long : Drained
  rest : Bytes → Drained

-- The header loop: `count` bytes were read before the line `cur`.
unfoldable pub drain_capped : ℕ → Bytes → Bytes → Drained
unfolding equal
drain_capped count cur [] = ended
drain_capped count cur (c ∷ s) =
    let next = drain_capped (count + suc (length cur)) [] s in
    let more = drain_capped count (cur ++ c ∷ []) s in
    if c == newline
    then (if ltb max_connect_header_bytes (count + suc (length cur))
        then too_long
        else if is_blank_line cur
        then rest s
        else next)
    else more

establish : ForwardProxy → Conn → Device → Bytes → Drained → Outcome
unfolding has
establish fp conn d host ended = closed []
establish fp conn d host too_long = closed bad_request
establish fp conn d host (rest s) =
    if not (has fp.allow host)
    then closed forbidden
    else if not conn.accepts_write
    then closed []
    else tunnel d host s

connect_host : ForwardProxy → Conn → Device → ℕ → Bytes → Option Bytes → Outcome
unfolding establish drain_capped
connect_host fp conn d count s none = closed bad_request
connect_host fp conn d count s (some host) = establish fp conn d host (drain_capped count [] s)

first_line : ForwardProxy → Conn → Device → Option (Bytes × Bytes) → Outcome
unfolding connect_host parse_connect
first_line fp conn d none = closed []
first_line fp conn d (some (line, s)) =
    if ltb max_connect_header_bytes (length line)
    then closed bad_request
    else connect_host fp conn d (length line) s (parse_connect line)

-- The handshake fails unless VerifyPeerCertificate finds the device.
admit : ForwardProxy → Conn → Option Device → Outcome
unfolding first_line read_line
admit fp conn none = closed []
admit fp conn (some d) = first_line fp conn d (read_line conn.input)

unfoldable pub peer_device : Sha256 → ForwardProxy → Option Bytes → Option Device
unfolding lookup_device cert_fingerprint
peer_device sha fp none = none
peer_device sha fp (some der) = lookup_device fp.auth (cert_fingerprint sha der)

unfoldable pub handle : Sha256 → ForwardProxy → Conn → Outcome
unfolding admit peer_device
handle sha fp conn = admit fp conn (peer_device sha fp conn.cert)

-- What the client reads through the outer session: the reply of a connection that was closed, or the
-- 200 and then what the tunnel's server sends.
abbrev pub received : Outcome → Bytes → Bytes
received (closed reply) back = reply
received (tunnel d host stream) back = codes "HTTP/1.1 200 Connection Established\r\n\r\n" ++ back
