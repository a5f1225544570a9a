-- ===== src/Proxy/Handle/Refusals.antt =====
-- What a connection that the proxy closes is told.
use cc_mysub.Base.{
  ℕ, Bytes, ltb, length, Bool-cases, [], Option, none, some, ◌≡◌, ◌⊎◌, inl, inr, refl,
}
use cc_mysub.Auth.Token.{Sha256, cert_fingerprint}
use cc_mysub.Auth.Store.{Device, lookup_device}
use cc_mysub.Stream.{has, read_line}
use cc_mysub.Connect.Parse.{parse_connect}
use cc_mysub.Proxy.Handle.{
  ForwardProxy, Conn, Outcome, closed, tunnel, Drained, ended, too_long, rest, bad_request,
  forbidden, max_connect_header_bytes, drain_capped, establish, connect_host, first_line, admit,
  peer_device, handle,
}

-- Nothing, 400 or 403.
abbrev pub IsRefusal : Bytes → Type 0
IsRefusal reply = (reply ≡ []) ⊎ ((reply ≡ bad_request) ⊎ (reply ≡ forbidden))

abbrev pub Refuses : Outcome → Type 0
Refuses (closed reply) = IsRefusal reply
Refuses (tunnel d host r) = Unit

establish-Refuses :
    (fp : ForwardProxy) (conn : Conn) (d : Device) (host : Bytes) (o : Drained)
    → Refuses (establish fp conn d host o)
unfolding establish
establish-Refuses fp conn d host ended = inl refl
establish-Refuses fp conn d host too_long = inr (inl refl)
establish-Refuses fp conn d host (rest s) = elim (Bool-cases (has fp.allow host)) [
  | inr a ↦ rw a (inr (inr refl))
  | inl a ↦ elim (Bool-cases conn.accepts_write) [
    | inr b ↦ rw (a, b) (inl refl)
    | inl b ↦ rw (a, b) tt
  ]
]

connect_host-Refuses :
    (fp : ForwardProxy) (conn : Conn) (d : Device) (n : ℕ) (s : Bytes) (o : Option Bytes)
    → Refuses (connect_host fp conn d n s o)
unfolding connect_host
connect_host-Refuses fp conn d n s none = inr (inl refl)
connect_host-Refuses fp conn d n s (some host) =
    establish-Refuses fp conn d host (drain_capped n [] s)

first_line-Refuses :
    (fp : ForwardProxy) (conn : Conn) (d : Device) (o : Option (Bytes × Bytes))
    → Refuses (first_line fp conn d o)
unfolding first_line
first_line-Refuses fp conn d none = inl refl
first_line-Refuses fp conn d (some (line, s)) =
    elim (Bool-cases (ltb max_connect_header_bytes (length line))) [
      | inl a ↦ rw a (inr (inl refl))
      | inr a ↦ rw a (connect_host-Refuses fp conn d (length line) s (parse_connect line))
    ]

admit-Refuses : (fp : ForwardProxy) (conn : Conn) (o : Option Device) → Refuses (admit fp conn o)
unfolding admit
admit-Refuses fp conn none = inl refl
admit-Refuses fp conn (some d) = first_line-Refuses fp conn d (read_line conn.input)

pub handle-Refuses : (sha : Sha256) (fp : ForwardProxy) (conn : Conn) → Refuses (handle sha fp conn)
unfolding handle
handle-Refuses sha fp conn = admit-Refuses fp conn (peer_device sha fp conn.cert)

-- A certificate that the whitelist does not know.
pub handle-unknown :
    (sha : Sha256) (fp : ForwardProxy) (conn : Conn) (der : Bytes)
    → conn.cert ≡ some der
    → lookup_device fp.auth (cert_fingerprint sha der) ≡ none
    → handle sha fp conn ≡ closed []
unfolding handle peer_device admit
handle-unknown sha fp conn der k l = rw (k, l) refl
