-- ===== src/Proxy/Handle/Admission.antt =====
-- Who gets a tunnel through the proxy, and what everyone else is told.
use cc_mysub.Base.{
  ℕ, suc, ◌+◌, ◌≤◌, Bytes, true, ◌==◌, ltb, length, length-append, [], ◌∷◌, ◌++◌, Option, none,
  some, Option-cases, Bool-cases, ◌≡◌, inl, inr, refl, ap, subst, ◌∙◌, arith,
}
use cc_mysub.Auth.Token.{Sha256, cert_fingerprint}
use cc_mysub.Auth.Store.{Device, lookup_device}
use cc_mysub.Stream.{newline, is_blank_line, read_line, has}
use cc_mysub.Stream.Laws.{read_line-split}
use cc_mysub.Connect.Parse.{parse_connect}
use cc_mysub.Proxy.Handle.{
  max_connect_header_bytes, ForwardProxy, Conn, tunnel, Drained, ended, too_long, rest,
  drain_capped, establish, connect_host, first_line, admit, peer_device, handle,
}

-- The headers up to the blank line, and the line being read, fit under the cap.
drain_capped-bound :
    (count : ℕ) (cur s r : Bytes)
    → drain_capped count cur s ≡ rest r
    → (head : Bytes) × (s ≡ head ++ r)
      × (count + length cur + length head ≤ max_connect_header_bytes)
unfolding drain_capped
drain_capped-bound count cur [] r h = cc
drain_capped-bound count cur (c ∷ s) r h = elim (Bool-cases (c == newline)) [
  | inr e ↦
      let (head, split, le) = drain_capped-bound count (cur ++ c ∷ []) s r (rw e at h) in
      (c ∷ head, ap (◌∷◌ c) split, omega (arith, length-append cur (c ∷ [])))
  | inl e ↦ elim (Bool-cases (ltb max_connect_header_bytes (count + suc (length cur)))) [
    | inl o ↦ cc (rw (e, o) at h)
    | inr o ↦ elim (Bool-cases (is_blank_line cur)) [
      | inl b ↦ (c ∷ [], cc (rw (e, o, b) at h), ground arith)
      | inr b ↦
          let n = count + suc (length cur) in
          let (head, split, le) = drain_capped-bound n [] s r (rw (e, o, b) at h) in
          (c ∷ head, ap (◌∷◌ c) split, omega arith)
    ]
  ]
]

-- The part behind the first line.
record Connected (fp : ForwardProxy) (d : Device) (count : ℕ) (line s : Bytes) (host r : Bytes)
    : Type 0 where
  headers : Bytes
  split : s ≡ headers ++ r
  fits : count + length headers ≤ max_connect_header_bytes
  named : parse_connect line ≡ some host
  allowed : has fp.allow host ≡ true

module _ (fp : ForwardProxy) (conn : Conn) (d' d : Device) (host r : Bytes) where
  establish-tunnel :
      (named : Bytes) (o : Drained)
      → establish fp conn d' named o ≡ tunnel d host r
      → (o ≡ rest r) × (named ≡ host) × (d' ≡ d) × (has fp.allow host ≡ true)
  unfolding establish
  establish-tunnel named ended h = cc
  establish-tunnel named too_long h = cc
  establish-tunnel named (rest s) h = elim (Bool-cases (has fp.allow named)) [
    | inr a ↦ cc (rw a at h)
    | inl a ↦ elim (Bool-cases conn.accepts_write) [
      | inr w ↦ cc (rw (a, w) at h)
      | inl w ↦
          let e : tunnel d' named s ≡ tunnel d host r = rw (a, w) at h in
          let n : named ≡ host = cc e in (cc e, n, cc e, subst (λ x. has fp.allow x ≡ true) n a)
    ]
  ]

  connect_host-tunnel :
      (count : ℕ) (line s : Bytes) (o : Option Bytes)
      → parse_connect line ≡ o
      → connect_host fp conn d' count s o ≡ tunnel d host r
      → (d' ≡ d) × Connected fp d count line s host r
  unfolding connect_host
  connect_host-tunnel count line s none p h = cc
  connect_host-tunnel count line s (some named) p h =
      let (o, n, e, a) = establish-tunnel named (drain_capped count [] s) h in
      let (headers, split, fits) = drain_capped-bound count [] s r o in
      (
        e,
        record {
          headers = headers;
          split = split;
          fits = omega arith;
          named = p ∙ ap some n;
          allowed = a;
        },
      )

  admit-tunnel :
      (s : Bytes) (o : Option (Bytes × Bytes))
      → read_line s ≡ o
      → first_line fp conn d' o ≡ tunnel d host r
      → (d' ≡ d)
        × ((line : Bytes) × (behind : Bytes) × (s ≡ line ++ behind)
            × Connected fp d (length line) line behind host r)
  unfolding first_line
  admit-tunnel s none p h = cc
  admit-tunnel s (some (line, behind)) p h =
      elim (Bool-cases (ltb max_connect_header_bytes (length line))) [
        | inl o ↦ cc (rw o at h)
        | inr o ↦
            let (e, c) =
              connect_host-tunnel (length line) line behind (parse_connect line) refl (rw o at h) in
            (e, (line, behind, read_line-split s line behind p, c))
      ]

-- What a tunnel rests on.
pub record Admitted (sha : Sha256) (fp : ForwardProxy) (conn : Conn) (d : Device) (host r : Bytes)
    : Type 0 where
  pub der : Bytes
  pub presented : conn.cert ≡ some der
  pub registered : lookup_device fp.auth (cert_fingerprint sha der) ≡ some d
  pub line : Bytes
  pub headers : Bytes
  pub consumed : conn.input ≡ line ++ (headers ++ r)
  pub bounded : length line + length headers ≤ max_connect_header_bytes
  pub named : parse_connect line ≡ some host
  pub allowed : has fp.allow host ≡ true

-- Where handle opens a tunnel to a host for device d, the client presented a certificate whose
-- fingerprint the whitelist answers with d, the stream began with a line by which parseConnect gives
-- that host, the host is on the allowlist, that line and the headers behind it together have at most
-- maxConnectHeaderBytes bytes, and the tunnel's stream is exactly what followed them.
pub handle-Admitted :
    (sha : Sha256) (fp : ForwardProxy) (conn : Conn) (d : Device) (host r : Bytes)
    → handle sha fp conn ≡ tunnel d host r
    → Admitted sha fp conn d host r
unfolding handle
handle-Admitted sha fp conn d host r h = elim (Option-cases conn.cert) [
  | inl e ↦ cc (rw (e, peer_device, admit) at h)
  | inr (der, e) ↦ elim (Option-cases (lookup_device fp.auth (cert_fingerprint sha der))) [
    | inl m ↦ cc (rw (e, peer_device, m, admit) at h)
    | inr (d', m) ↦
        let (same, found) =
          admit-tunnel fp conn d' d host r conn.input (read_line conn.input) refl
            (rw (e, peer_device, m, admit) at h) in
        let (line, behind, split, c) = found in
        record {
          der = der;
          presented = e;
          registered = m ∙ ap some same;
          line = line;
          headers = c.headers;
          consumed = split ∙ ap (◌++◌ line) c.split;
          bounded = c.fits;
          named = c.named;
          allowed = c.allowed;
        }
  ]
]
