-- ===== src/Lib.antt =====
-- cc-mysub: a proxy by which enrolled devices use one subscription. A device runs a local splitter,
-- which sends the CONNECT requests for the hosts of a list through an outer mutual TLS session to the
-- proxy, and every other one straight to its target. The proxy knows a device by the fingerprint of
-- its certificate, opens a tunnel to an allowed host, and serves the requests in it: it swaps the
-- device's placeholder for the real token of the device's pool entry, within a limit a minute, and logs
-- them. An operator enrols devices in devices.json, which the running proxy polls.
--
-- Which module models which code:
--   Auth.Token      internal/auth/token.go       CertFingerprint, CanonicalFingerprint,
--                                                HasInboundCredential
--   Auth.Store      internal/auth/store.go       NewDeviceStore, reload, Lookup, a tick of StartWatch
--   Config          internal/config/config.go    LoadConfig, LoadUpstream, parseUpstream, PickToken
--   RateLimit       internal/ratelimit/bucket.go Allow
--   Connect         internal/connect/connect.go  ParseConnect, ValidHost, with strings.Fields (in
--                                                Base.Text), net.SplitHostPort and net.ParseIP
--   Stream          what splitter and proxy share: reading lines, draining headers, the set of hosts
--   Splitter        internal/splitter/splitter.go New, Serve, handle
--   Splitter.Relay  internal/splitter/splitter.go relay
--   Proxy.Handle    internal/proxy/forward.go    NewForwardProxy, handle up to the tunnel
--   Proxy.Prefix    internal/proxy/forward.go    prefixConn
--   Proxy.Tunnel    internal/proxy/forward.go    notifyConn, oneConnListener
--   Proxy.Session   internal/proxy/forward.go    handle as a whole, with CertFor and the serving chain
--   Proxy.Serve     internal/proxy/forward.go    Serve, with handle's deferred calls
--   Proxy.Chain     internal/proxy/forward.go and middleware.go  conditionalAuth, RateLimitByDevice,
--                                                AccessLog, forwardSwap, as NewForwardProxy joins them
--   Proxy.Capture   internal/proxy/middleware.go captureWriter
--   Proxy.Sink      internal/proxy/middleware.go defaultSink
--   Proxy.Usage     internal/proxy/usage.go      SniffUsageJSON, SniffUsageSSE
--   Proxy.Baseline  internal/proxy/baseline.go   CheckInboundBaseline, CheckOutboundBaseline
--   Proxy.Retry     internal/proxy/transport.go  RoundTrip
--   Proxy.OuterCert internal/proxy/outercert.go  get
--   Enroll          internal/enroll/enroll.go    resolveFingerprint, Resolve
--   Enroll.Devices  internal/enroll/enroll.go    AppendDevice, ReplaceDevice
--   Enroll.Run      internal/enroll/enroll.go and ca.go  Run, EnsureCA
--   Mitm            internal/mitm/mint.go        CertFor, mint
--   Mitm.Authority  internal/mitm/ca.go and genca.go  LoadCA, GenerateCA
--   DeviceInit      cmd/cc-mysub/deviceinit.go   runDeviceInit, writeFileAtomic, printEnroll's values
--   Cli             cmd/cc-mysub/main.go         the choice of the subcommand, defaultConfigDir
--   Cli.Startup     cmd/cc-mysub/main.go         what is loaded before the server serves
--   Cli.GenConfig   cmd/cc-mysub/genconfig.go    runGenConfig
--   Cli.Helper      cmd/cc-mysub/helper.go       runHelper
--   Collector       ci/egress/collector/sni.go   ParseSNI
--   Egress          ci/egress/collector, mock and diag  the inventory, the mock upstream, the diagnosis
--   Http            the part of net/http's Header that the code uses
-- Base has the shared types and lemmas, Tests the runs at concrete inputs. The modules below a
-- component's own are its theorems.
--
-- State is passed explicitly: a record for each struct with state, a function for each method, and the
-- errors as values. The goroutines of the proxy's Serve, of relay and of the tunnel's server are step
-- relations. Every other method is one step: most hold a lock for as long as they change anything;
-- DeviceStore.reload and outerCertLoader.get read the files without it, and a call of another goroutine
-- between that and their assignment is left out. The streams of a connection are byte lists, which end
-- where the peer stops or a deadline is met. A handler that panics while it copies an answer gives an
-- aborted answer, which AccessLog does not log and behind which the connection serves nothing. The
-- requests sent upstream are those that forwardSwap gives to retryTransport; what it tries to send for
-- them is kept apart.
--
-- Every loop is structural recursion, on a list of bytes, rows, delays or pieces, except for the two of
-- ParseSNI, whose fuel is one more than the bytes that are left (running out of it would count as a
-- panic), and diag's decimal numbers, whose fuel is the number itself. Numbers are natural numbers
-- without a bound: Go's int holds all the counts here. Times are nanoseconds.
--
-- What is outside the repository is a parameter: SHA-256 (32 bytes), the JSON codecs (what is encoded
-- is decoded again, as encoding/json does for labels and ids that are valid UTF-8), PEM, x509 signing
-- (the certificate says what its template says, whose times x509 rounds to seconds), gzip, the TLS
-- handshakes, the file system's answers, ReverseProxy's own changes to headers, and the default
-- transport below retryTransport, the only transport that main lets forwardSwap use.
--
-- Not modelled: TLS itself, deadlines, and how the tunnel's server reads requests from its TLS stream;
-- failing writes to the client, but for the 200 of the proxy, an answer's body and relay; Flush and Unwrap of
-- captureWriter, which only give the writer below; the rounding of the rate limiter's floats, whose
-- tokens are counted exactly; flag parsing, signals and the text of messages; the shell scripts.
mod Base
mod Tests
pub mod Http
pub mod Auth
pub mod Config
pub mod RateLimit
pub mod Connect
pub mod Stream
pub mod Splitter
pub mod Proxy
pub mod Enroll
pub mod Mitm
pub mod DeviceInit
pub mod Collector
pub mod Cli
pub mod Egress
