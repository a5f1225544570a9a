-- ===== src/Splitter/Chain.antt =====
-- The splitter and the proxy together: the request that the one writes is the request that the other
-- grants.
use cc_mysub.Base.{
  ◌+◌, ◌*◌, ◌≤◌, Bytes, codes, true, not, ◌==◌, ==_iff, length, length-append, [], ◌∷◌, ◌++◌,
  append_assoc, all_bytes-append, some, space_width, ◌≡◌, refl, ap, ◌∙◌, equal, arith, Bool-cases,
  inl, inr, subst,
}
use cc_mysub.Auth.Token.{Sha256, cert_fingerprint}
use cc_mysub.Auth.Store.{Device, lookup_device}
use cc_mysub.Stream.{newline, has}
use cc_mysub.Stream.Laws.{one_line, header_block, IsHeader, carriage_return}
use cc_mysub.Connect.Parse.{connect_word, parse_connect}
use cc_mysub.Connect.Parse.Words.{FreeBefore}
use cc_mysub.Connect.Parse.Target.{
  target_of, connect_line, parse_connect-connect_line, target_of-IsField,
}
use cc_mysub.Proxy.Handle.{max_connect_header_bytes, ForwardProxy, Conn, tunnel}
use cc_mysub.Proxy.Handle
use cc_mysub.Proxy.Handle.Replies.{handle_complete}
use cc_mysub.Splitter.{chained_request}

space_width-newline : (s : Bytes) → space_width (newline ∷ s) ≡ 1
unfolding space_width
space_width-newline [] = refl
space_width-newline (a ∷ []) = refl
space_width-newline (a ∷ b ∷ s) = refl

FreeBefore-one_line : (s t : Bytes) → FreeBefore s t → one_line s ≡ true
FreeBefore-one_line [] t h = refl
FreeBefore-one_line (c ∷ s) t h = elim (Bool-cases (c == newline)) [
  | inr e ↦ rw (e, FreeBefore-one_line s t h.1)
  | inl e ↦ absurd (
      omega (
        arith,
        space_width-newline (s ++ t),
        subst (λ x. space_width (x ∷ (s ++ t)) ≡ 0) ((==_iff c newline).0 e) h.0,
      ))
]

abbrev request_line : Bytes → Bytes
request_line target = connect_word ++ b' ' ∷ (target ++ b' ' ∷ codes "HTTP/1.1\r")

abbrev host_header : Bytes → Bytes
host_header target = codes "Host: " ++ (target ++ carriage_return)

chained_request-block :
    (target r : Bytes)
    → chained_request target ++ r
      ≡ request_line target
        ++ newline ∷ header_block (host_header target ∷ []) (carriage_return ++ newline ∷ r)
chained_request-block target r = simp append_assoc

request_line-connect_line :
    (target : Bytes) → request_line target ++ newline ∷ [] ≡ connect_line target
request_line-connect_line target = simp append_assoc

request_line-one_line :
    (target : Bytes) → one_line target ≡ true → one_line (request_line target) ≡ true
request_line-one_line target h =
    rw (all_bytes-append (λ c. not (c == newline)) target (b' ' ∷ codes "HTTP/1.1\r"), h)

host_header-IsHeader : (target : Bytes) → one_line target ≡ true → IsHeader (host_header target)
unfolding equal
host_header-IsHeader target h =
    (rw (all_bytes-append (λ c. not (c == newline)) target carriage_return, h), refl)

-- Let the client's line name a host by parseConnect. The request that the splitter writes to the proxy
-- for that line's target, of at most about 4 KB, makes a proxy that allows the host, knows the device's
-- certificate and can write its answer open the tunnel to that same host for that device, and the
-- tunnel's stream is what follows the request.
pub chained_request-tunnel :
    (sha : Sha256) (fp : ForwardProxy) (conn : Conn) (der : Bytes) (d : Device)
    (line host r : Bytes)
    → conn.cert ≡ some der
    → lookup_device fp.auth (cert_fingerprint sha der) ≡ some d
    → conn.accepts_write ≡ true
    → has fp.allow host ≡ true
    → parse_connect line ≡ some host
    → 2 * length (target_of line) + 29 ≤ max_connect_header_bytes
    → conn.input ≡ chained_request (target_of line) ++ r
    → Handle.handle sha fp conn ≡ tunnel d host r
chained_request-tunnel sha fp conn der d line host r c k w a p le e =
    let t = target_of line in
    let f = FreeBefore-one_line t _ (target_of-IsField line host p).1 in
    handle_complete sha fp conn der d c k (request_line t) host r (host_header t ∷ [])
      (request_line-one_line t f)
      (ap parse_connect (request_line-connect_line t) ∙ parse_connect-connect_line line host p) a w
      (host_header-IsHeader t f, tt)
      (omega (arith, length-append t (b' ' ∷ codes "HTTP/1.1\r"), length-append t carriage_return))
      (e ∙ chained_request-block t r)
