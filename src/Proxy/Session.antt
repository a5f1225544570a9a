-- ===== src/Proxy/Session.antt =====
-- The whole of ForwardProxy.handle of internal/proxy/forward.go: behind the tunnel that
-- `Proxy.Handle` opens, an inner TLS server with a certificate for the CONNECT host, and the serving
-- chain with the device of the outer certificate in the context of each request. The inner TLS is a
-- parameter: the requests that its HTTP server reads from the tunnel, with their times.
pub mod Identity
pub mod Enrolled
pub mod Revoked
use cc_mysub.Base.{ℕ, Bytes, Result, ok, err, List, [], ◌∷◌, none, some, if◌then◌else◌}
use cc_mysub.Auth.Token.{Sha256}
use cc_mysub.Auth.Store.{Device}
use cc_mysub.Config.{Upstream}
use cc_mysub.Mitm.{Signer, Minter, Cert, cert_for}
use cc_mysub.Mitm
use cc_mysub.Proxy.Handle.{ForwardProxy, Conn, Outcome, closed, tunnel}
use cc_mysub.Proxy.Handle
use cc_mysub.Proxy.Usage.{Usage}
use cc_mysub.Proxy.Chain.{Request, Context, Response, Net, World, serve}

-- The BaseContext of a connection.
abbrev pub base_context : Device → Context
base_context d = record { device = some d; real_token = none }

-- The requests of a connection, one after the other. Behind a handler that panicked the inner server
-- closes the connection.
unfoldable pub serve_requests :
    Upstream → Net → (Response → Usage) → Context → List (ℕ × Request) → World → World
unfolding serve
serve_requests up net usage ctx [] w = w
serve_requests up net usage ctx ((now, r) ∷ more) w =
    let res = serve up net usage now ctx r w in
    let rest = serve_requests up net usage ctx more res.0 in if res.1.aborted then res.0 else rest

module _ (up : Upstream) (net : Net) (usage : Response → Usage) (signer : Signer) (now : ℕ)
    (inner : Bytes → Cert → List (ℕ × Request)) where
  -- The inner handshake fails where there is no certificate.
  handshaken : Device → Bytes → World → Minter × Result Mitm.Error Cert → Minter × World
  unfolding serve_requests
  handshaken d rest w (m, err e) = (m, w)
  handshaken d rest w (m, ok c) = (m, serve_requests up net usage (base_context d) (inner rest c) w)

  tunnelled : Minter → World → Outcome → Minter × World
  unfolding handshaken cert_for
  tunnelled m w (closed reply) = (m, w)
  tunnelled m w (tunnel d host rest) = handshaken d rest w (cert_for signer m host now)

  unfoldable pub serve_conn : Sha256 → ForwardProxy → Conn → Minter → World → Minter × World
  unfolding tunnelled Handle.handle
  serve_conn sha fp conn m w = tunnelled m w (Handle.handle sha fp conn)
