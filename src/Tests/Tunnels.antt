-- ===== src/Tests/Tunnels.antt =====
-- Tests of the tunnel: the proxy's side, and splitter and proxy together.
use cc_mysub.Base.{
  ap, sym, ℕ, List, equal, ◌≤◌, Bytes, codes, true, length, [], ◌∷◌, ◌++◌, some, ◌≡◌, ◌⊎◌, refl,
  arith, ◌*◌, ◌+◌, if◌then◌else◌,
}
use cc_mysub.Auth.Token.{cert_fingerprint, canonical_fingerprint}
use cc_mysub.Auth.Store.{lookup_device}
use cc_mysub.Stream.{newline, has, read_line, drain_headers}
use cc_mysub.Stream.Laws.{header_block, IsHeader, carriage_return}
use cc_mysub.Connect.Parse.{parse_connect}
use cc_mysub.Connect.Parse.Target.{target_of}
use cc_mysub.Proxy.Handle.{
  ForwardProxy, Conn, Outcome, closed, tunnel, bad_request, received, max_connect_header_bytes,
}
use cc_mysub.Proxy.Handle
use cc_mysub.Proxy.Handle.Admission.{Admitted, handle-Admitted}
use cc_mysub.Proxy.Prefix.{base_conn, reads}
use cc_mysub.Proxy.Prefix.Order.{left, reads-tunnel}
use cc_mysub.Proxy.Handle.Replies.{handle_complete}
use cc_mysub.Splitter.{
  Splitter, Env, Action, dial, to_client, to_upstream, established, copied, chained_request,
}
use cc_mysub.Splitter
use cc_mysub.Splitter.Joined.{after_request, handle-after_request, handle-joined}
use cc_mysub.Splitter.Chain.{chained_request-tunnel}
use cc_mysub.Splitter.Routing.{
  Asks, dialled, writes, proxy_address, handle_routing, Ends, Follows, handle_answer,
}
use cc_mysub.Tests.Data.{laptop, proxy, toy_sha, conn_of, anthropic}

abbrev first : Bytes
first = codes "CONNECT api.anthropic.com:443 HTTP/1.1\r"

abbrev agent : Bytes
agent = codes "User-Agent: x\r"

abbrev hello : Bytes
hello = codes "hello"

abbrev input : Bytes
input = first ++ newline ∷ header_block (agent ∷ []) (carriage_return ++ newline ∷ hello)

registered : lookup_device proxy.auth (cert_fingerprint toy_sha (codes "der")) ≡ some laptop
unfolding lookup_device cert_fingerprint canonical_fingerprint equal
registered = refl

allowed : has proxy.allow anthropic ≡ true
unfolding has equal
allowed = refl

named : parse_connect (first ++ newline ∷ []) ≡ some anthropic
unfolding parse_connect equal
named = refl

agent-IsHeader : IsHeader agent
unfolding equal
agent-IsHeader = (refl, refl)

handle_complete_example :
    Handle.handle toy_sha proxy (conn_of input) ≡ tunnel laptop anthropic hello
handle_complete_example =
    handle_complete toy_sha proxy (conn_of input) (codes "der") laptop refl registered first
      anthropic hello (agent ∷ []) refl named allowed refl (agent-IsHeader, tt) (omega arith) refl

handle-Admitted_example : Admitted toy_sha proxy (conn_of input) laptop anthropic hello
handle-Admitted_example =
    handle-Admitted toy_sha proxy (conn_of input) laptop anthropic hello handle_complete_example

abbrev line : Bytes
line = codes "CONNECT  api.anthropic.com:443 HTTP/1.0\n"

-- The sizes of the buffers, and how much the connection would give.
abbrev sizes : List (ℕ × ℕ)
sizes = (1, 9) ∷ (4, 9) ∷ (4, 9) ∷ []

line_named : parse_connect line ≡ some anthropic
unfolding parse_connect equal
line_named = refl

line_target : target_of line ≡ codes "api.anthropic.com:443"
unfolding target_of
line_target = refl

target_fits : 2 * length (target_of line) + 29 ≤ max_connect_header_bytes
target_fits = rw line_target (omega arith)

abbrev splitter : Splitter
splitter = record { host = codes "proxy.example"; allow = (anthropic, true) ∷ [] }

abbrev env : Env
env = record {
  client = line ++ (codes "\r\n" ++ hello);
  dials = λ a. true;
  handshakes = true;
  accepts_write = true;
  upstream = codes "HTTP/1.1 200 Connection Established\r\n\r\nback";
}

env_drained : drain_headers [] (codes "\r\n" ++ hello) ≡ some hello
unfolding drain_headers equal
env_drained = refl

asks : Asks env line anthropic hello
unfolding read_line
asks = record {
  behind = codes "\r\n" ++ hello;
  first = refl;
  named = line_named;
  drained = env_drained;
}

handle_routing_example :
    (dialled (Splitter.handle splitter env)
      ≡ (if has splitter.allow anthropic then proxy_address splitter else target_of line) ∷ [])
    × ((writes (Splitter.handle splitter env) ≡ [])
        ⊎ ((has splitter.allow anthropic ≡ true)
            × (writes (Splitter.handle splitter env) ≡ chained_request (target_of line) ∷ [])))
handle_routing_example = handle_routing splitter env line anthropic hello asks

handle_answer_example : Ends (Follows splitter env anthropic) hello (Splitter.handle splitter env)
handle_answer_example = handle_answer splitter env line anthropic hello asks

abbrev outer : Conn
outer = conn_of (chained_request (target_of line) ++ hello)

opened : Handle.handle toy_sha proxy outer ≡ tunnel laptop anthropic hello
opened =
    chained_request-tunnel toy_sha proxy outer (codes "der") laptop line anthropic hello refl
      registered refl allowed line_named target_fits refl

answered : env.upstream ≡ received (Handle.handle toy_sha proxy outer) (codes "back")
answered = sym (ap (λ o. received o (codes "back")) opened)

handle-joined_example :
    (Handle.handle toy_sha proxy outer ≡ tunnel laptop anthropic hello)
    × (Splitter.handle splitter env
        ≡ dial (proxy_address splitter)
          ∷ to_upstream (chained_request (target_of line))
          ∷ to_client established
          ∷ copied hello (codes "back"))
handle-joined_example =
    handle-joined splitter env line anthropic hello asks allowed refl refl refl toy_sha proxy outer
      (codes "back") answered (codes "der") laptop refl registered refl allowed target_fits refl

-- A proxy that knows no device.
abbrev stranger : ForwardProxy
stranger = record { auth = record { by_hash = []; last_mod = 0 }; allow = [] }

refused : Handle.handle toy_sha stranger outer ≡ closed []
unfolding Handle.handle canonical_fingerprint
refused = refl

abbrev deaf : Env
deaf = record env { upstream = [] }

deaf-Asks : Asks deaf line anthropic hello
unfolding read_line
deaf-Asks = record {
  behind = codes "\r\n" ++ hello;
  first = refl;
  named = line_named;
  drained = env_drained;
}

handle-after_request_example :
    Splitter.handle splitter deaf
    ≡ dial (proxy_address splitter)
      ∷ to_upstream (chained_request (target_of line))
      ∷ after_request hello (codes "back") (Handle.handle toy_sha stranger outer)
handle-after_request_example =
    handle-after_request splitter deaf line anthropic hello deaf-Asks allowed refl refl refl toy_sha
      stranger outer (codes "back") (sym (ap (λ o. received o (codes "back")) refused))

-- The inner TLS reads "hello" in three pieces, of which "he" was buffered.
reads-tunnel_example :
    (head : Bytes) × (length head ≤ max_connect_header_bytes)
    × (head
          ++ ((reads sizes (base_conn (codes "he") (codes "llo"))).0
              ++ left (reads sizes (base_conn (codes "he") (codes "llo"))).1)
        ≡ (conn_of input).input)
reads-tunnel_example =
    reads-tunnel toy_sha proxy (conn_of input) laptop anthropic (codes "he") (codes "llo") sizes
      handle_complete_example

reads-hello : reads sizes (base_conn (codes "he") (codes "llo")) ≡ (hello, base_conn [] [])
unfolding reads
reads-hello = refl
