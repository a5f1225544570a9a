-- ===== src/Tests/Session.antt =====
-- Tests of a whole connection.
use cc_mysub.Base.{ℕ, Bytes, codes, equal, length, List, [], ◌∷◌, some, ◌≡◌, ◌⊎◌, refl}
use cc_mysub.Auth.Token.{canonical_fingerprint}
use cc_mysub.Mitm.{Template, Cert, Signer, new_minter, cert_for}
use cc_mysub.Proxy.Handle
use cc_mysub.Proxy.Chain.{Request, serve, json_error}
use cc_mysub.Proxy.Session.{serve_conn}
use cc_mysub.Proxy.Session.Identity.{Identified, serve_conn-Identified}
use cc_mysub.Tests.Data.{toy_sha, proxy, conn_of, upstream, net, usage, world, ask, telemetry}

pub signed :
    (t : Template) (c : Cert)
    → some (record { der = t.common_name; leaf = t }) ≡ some c
    → c.leaf ≡ t
signed t c e = cc

abbrev pub self : Signer
self = record { sign = λ t. some (record { der = t.common_name; leaf = t }); sign-leaf = signed }

-- Three requests, whatever the stream is; the third is over the limit of the device.
abbrev pub inner : Bytes → Cert → List (ℕ × Request)
inner rest cert = (5, ask) ∷ (6, telemetry) ∷ (7, ask) ∷ []

abbrev connects : Bytes
connects = codes "CONNECT api.anthropic.com:443 HTTP/1.1\r\n\r\nhello"

sent_two :
    length
      (serve_conn upstream net usage self 3 inner toy_sha proxy
        (conn_of connects)
        (new_minter 60)
        world).1.sent
    ≡ 2
unfolding serve_conn Handle.handle cert_for serve json_error canonical_fingerprint equal
sent_two = refl

serve_conn-Identified_example :
    ((serve_conn upstream net usage self 3 inner toy_sha proxy
        (conn_of connects)
        (new_minter 60)
        world).1
      ≡ world)
    ⊎ Identified upstream net usage self 3 inner toy_sha proxy
        (conn_of connects)
        (new_minter 60)
        world
        (serve_conn upstream net usage self 3 inner toy_sha proxy
          (conn_of connects)
          (new_minter 60)
          world).1
serve_conn-Identified_example =
    serve_conn-Identified upstream net usage self 3 inner toy_sha proxy (conn_of connects)
      (new_minter 60) world
