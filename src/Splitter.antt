-- ===== src/Splitter.antt =====
-- internal/splitter/splitter.go. One connection of the local splitter: `Env` is what the client and
-- the network do, and `handle` the calls that the code makes in answer, in their order. relay copies
-- both ways until one side ends; its arguments are the streams that are left to copy.
pub mod Routing
pub mod Chain
pub mod Joined
pub mod Relay
use cc_mysub.Base.{
  ℕ, Bytes, codes, Bool, true, false, not, ◌||◌, ◌==◌, contains, Dict, List, [], ◌∷◌, ◌++◌, Option,
  none, some, if◌then◌else◌,
}
use cc_mysub.Stream.{read_line, drain_headers, set_of, has}
use cc_mysub.Connect.HostPort.{has_byte}
use cc_mysub.Connect.Parse.{parse_connect}
use cc_mysub.Connect.Parse.Target.{target_of, connect_line}

pub record Splitter : Type 0 where
  pub host : Bytes
  pub allow : Dict Bool

-- New: the TLS configuration and the dialer are the environment's.
unfoldable pub new_splitter : Bytes → List Bytes → Splitter
unfolding set_of
new_splitter host allow = record { host = host; allow = set_of allow [] }

pub record Env : Type 0 where
  pub client : Bytes
  pub dials : Bytes → Bool
  pub handshakes : Bool
  pub accepts_write : Bool
  pub upstream : Bytes

pub data Action : Type 0 where
  dial : Bytes → Action
  to_client : Bytes → Action
  to_upstream : Bytes → Action
  relay : Bytes → Bytes → Action
  close_client close_upstream : Action

abbrev pub bad_request : Bytes
bad_request = codes "HTTP/1.1 400 Bad Request\r\n\r\n"

abbrev pub bad_gateway : Bytes
bad_gateway = codes "HTTP/1.1 502 Bad Gateway\r\n\r\n"

abbrev pub established : Bytes
established = codes "HTTP/1.1 200 Connection Established\r\n\r\n"

-- net.JoinHostPort
unfoldable pub join_host_port : Bytes → Bytes → Bytes
unfolding has_byte
join_host_port host port =
    if has_byte b':' host then b'[' ∷ (host ++ b']' ∷ b':' ∷ port) else host ++ b':' ∷ port

-- "CONNECT " + target + " HTTP/1.1\r\nHost: " + target + "\r\n\r\n"
abbrev pub chained_request : Bytes → Bytes
chained_request target = connect_line target ++ (codes "Host: " ++ (target ++ codes "\r\n\r\n"))

-- The deferred calls run in reverse order.
abbrev close_both : List Action
close_both = close_upstream ∷ close_client ∷ []

-- relay closes both ends itself before the deferred calls do.
abbrev pub copied : Bytes → Bytes → List Action
copied client upstream = relay client upstream ∷ close_client ∷ close_upstream ∷ close_both

-- Behind the status line of the proxy.
chain_headers : Bytes → Option Bytes → List Action
chain_headers client none = close_both
chain_headers client (some upstream) = to_client established ∷ copied client upstream

chain_status : Bytes → Option (Bytes × Bytes) → List Action
unfolding chain_headers contains drain_headers
chain_status client none = to_client bad_gateway ∷ close_both
chain_status client (some (status, upstream)) =
    if not (contains status (codes "200"))
    then to_client bad_gateway ∷ close_both
    else chain_headers client (drain_headers [] upstream)

-- The branch of a host on the list: an outer TLS connection to the proxy, and CONNECT through it.
unfoldable pub chain : Splitter → Env → Bytes → Bytes → List Action
unfolding chain_status join_host_port read_line
chain s env target client =
    let address = join_host_port s.host (codes "443") in
    dial address
    ∷ (if not (env.dials address)
        then to_client bad_gateway ∷ close_client ∷ []
        else if not env.handshakes
        then to_client bad_gateway ∷ close_both
        else to_upstream (chained_request target)
          ∷ (if not env.accepts_write
              then close_both
              else chain_status client (read_line env.upstream)))

-- The branch of any other host.
unfoldable pub direct : Env → Bytes → Bytes → List Action
direct env target client =
    dial target
    ∷ (if not (env.dials target)
        then to_client bad_gateway ∷ close_client ∷ []
        else to_client established ∷ copied client env.upstream)

handle_headers : Splitter → Env → Bytes → Bytes → Option Bytes → List Action
unfolding chain direct has
handle_headers s env host target none = close_client ∷ []
handle_headers s env host target (some client) =
    if has s.allow host then chain s env target client else direct env target client

handle_host : Splitter → Env → Bytes → Bytes → Option Bytes → List Action
unfolding handle_headers target_of
handle_host s env line client none = to_client bad_request ∷ close_client ∷ []
handle_host s env line client (some host) =
    handle_headers s env host (target_of line) (drain_headers [] client)

handle_line : Splitter → Env → Option (Bytes × Bytes) → List Action
unfolding handle_host parse_connect
handle_line s env none = close_client ∷ []
handle_line s env (some (line, client)) = handle_host s env line client (parse_connect line)

unfoldable pub handle : Splitter → Env → List Action
unfolding handle_line read_line
handle s env = handle_line s env (read_line env.client)

-- What Accept of the listener returns.
pub data Accepted : Type 0 where
  conn : Env → Accepted
  failed : Bytes → Accepted

-- Serve: a goroutine for each connection, and the error that ends the loop; each connection's calls
-- are its own.
unfoldable pub serve : Splitter → List Accepted → List (List Action) × Option Bytes
unfolding handle
serve s [] = ([], none)
serve s (failed e ∷ later) = ([], some e)
serve s (conn env ∷ later) = let rest = serve s later in (handle s env ∷ rest.0, rest.1)
