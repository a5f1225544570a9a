-- ===== src/Splitter/Joined.antt =====
-- The splitter and the proxy at the two ends of one outer session.
use cc_mysub.Base.{
  ◌+◌, ◌*◌, ◌≤◌, Bytes, true, contains, equal, length, List, [], ◌∷◌, ◌++◌, some, ◌≡◌, inl, inr,
  refl, ap, ◌∙◌,
}
use cc_mysub.Auth.Token.{Sha256, cert_fingerprint}
use cc_mysub.Auth.Store.{Device, lookup_device}
use cc_mysub.Stream.{read_line, drain_headers, has}
use cc_mysub.Connect.Parse.Target.{target_of}
use cc_mysub.Proxy.Handle.{
  max_connect_header_bytes, ForwardProxy, Conn, Outcome, closed, tunnel, received, bad_request,
  forbidden,
}
use cc_mysub.Proxy.Handle.Refusals.{IsRefusal, Refuses, handle-Refuses}
use cc_mysub.Proxy.Handle
use cc_mysub.Splitter.{
  Splitter, Env, Action, dial, to_client, to_upstream, relay, close_client, close_upstream,
  bad_gateway, established, chained_request, copied, chain_headers, chain_status, chain,
}
use cc_mysub.Splitter
use cc_mysub.Splitter.Routing.{Asks, proxy_address, handle-branch}
use cc_mysub.Splitter.Chain.{chained_request-tunnel}

-- Turned away: 502, and both connections are closed.
abbrev pub turned_away : List Action
turned_away = to_client bad_gateway ∷ close_upstream ∷ close_client ∷ []

status_tunnel :
    (client back : Bytes)
    → chain_status client (read_line (established ++ back))
      ≡ to_client established ∷ copied client back
unfolding chain_status chain_headers read_line drain_headers contains equal
status_tunnel client back = refl

status_refused :
    (client reply : Bytes) → IsRefusal reply → chain_status client (read_line reply) ≡ turned_away
unfolding chain_status read_line contains
status_refused client reply (inl e) = rw e refl
status_refused client reply (inr (inl e)) = rw e refl
status_refused client reply (inr (inr e)) = rw e refl

-- What the splitter does behind its request, by what the proxy decides.
abbrev pub after_request : Bytes → Bytes → Outcome → List Action
after_request client back (closed reply) = turned_away
after_request client back (tunnel d host r) = to_client established ∷ copied client back

status_received :
    (client back : Bytes) (o : Outcome)
    → Refuses o
    → chain_status client (read_line (received o back)) ≡ after_request client back o
status_received client back (closed reply) h = status_refused client reply h
status_received client back (tunnel d host r) h = status_tunnel client back

module _ (s : Splitter) (env : Env) (line host client : Bytes) (asks : Asks env line host client)
    (listed : has s.allow host ≡ true) (dials : env.dials (proxy_address s) ≡ true)
    (handshakes : env.handshakes ≡ true) (writes : env.accepts_write ≡ true) (sha : Sha256)
    (fp : ForwardProxy) (conn : Conn) (back : Bytes)
    (answer : env.upstream ≡ received (Handle.handle sha fp conn) back) where
  -- If the splitter reaches the proxy for a host on its list, and reads what the proxy answers,
  -- whatever the proxy reads and whomever it knows: the splitter dials the proxy alone and writes the
  -- one request; and where the proxy opens a tunnel the client is answered 200 and joined to exactly
  -- what the tunnel's server sends, and where it does not, whether with 400, 403 or nothing, the client
  -- is answered 502 and both connections are closed.
  pub handle-after_request :
      Splitter.handle s env
      ≡ dial (proxy_address s)
        ∷ to_upstream (chained_request (target_of line))
        ∷ after_request client back (Handle.handle sha fp conn)
  handle-after_request =
      handle-branch s env line host client asks
      ∙ unfold chain in
        rw (listed, dials, handshakes, writes, answer)
          (ap (λ t. dial (proxy_address s) ∷ to_upstream (chained_request (target_of line)) ∷ t)
            (status_received client back (Handle.handle sha fp conn) (handle-Refuses sha fp conn)))

  -- Let a client ask the splitter for a host on its list, headers complete, and let the splitter reach
  -- the proxy; let the proxy read what the splitter writes to it, that is the CONNECT request for the
  -- client's target, of at most about 4 KB, and then the client's stream, and the splitter what the
  -- proxy answers. If the proxy knows the device's certificate, allows the host and can write, it opens
  -- a tunnel to that host for that device whose stream is exactly the client's; and the splitter dials
  -- the proxy alone, writes the one request, answers 200 and joins the client to exactly what the
  -- tunnel's server sends.
  pub handle-joined :
      (der : Bytes) (d : Device)
      → conn.cert ≡ some der
      → lookup_device fp.auth (cert_fingerprint sha der) ≡ some d
      → conn.accepts_write ≡ true
      → has fp.allow host ≡ true
      → 2 * length (target_of line) + 29 ≤ max_connect_header_bytes
      → conn.input ≡ chained_request (target_of line) ++ client
      → (Handle.handle sha fp conn ≡ tunnel d host client)
        × (Splitter.handle s env
            ≡ dial (proxy_address s)
              ∷ to_upstream (chained_request (target_of line))
              ∷ to_client established
              ∷ copied client back)
  handle-joined der d k look w a le i =
      let opened =
        chained_request-tunnel sha fp conn der d line host client k look w a asks.named le i in
      (
        opened,
        handle-after_request
            ∙ ap
                (λ o.
                  dial (proxy_address s)
                  ∷ to_upstream (chained_request (target_of line))
                  ∷ after_request client back o)
                opened,
      )
