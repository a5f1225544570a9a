-- ===== src/Tests/EndToEnd.antt =====
-- Tests of a device from add-device to the upstream.
use cc_mysub.Base.{
  Bytes, codes, true, false, ◌*◌, ◌+◌, length, ok, equal, List, [], ◌∷◌, ◌++◌, none, some, ◌≡◌, ◌≢◌,
  ◌≤◌, inr, refl, arith,
}
use cc_mysub.Auth.Token.{canonical_fingerprint, cert_fingerprint, has_inbound_credential}
use cc_mysub.Auth.Store.{Disk, DeviceStore}
use cc_mysub.Auth.Store.Watch.{quiet}
use cc_mysub.Config.{pick_token}
use cc_mysub.Connect.Parse.{parse_connect}
use cc_mysub.Connect.Parse.Target.{target_of}
use cc_mysub.Enroll.{content, absent}
use cc_mysub.Enroll.Devices.{new_device}
use cc_mysub.Enroll.Run.{run}
use cc_mysub.Mitm.{Cert, template, new_minter, cert_for}
use cc_mysub.RateLimit.{allow}
use cc_mysub.Splitter.{chained_request}
use cc_mysub.Stream.{has}
use cc_mysub.Proxy.Handle.{ForwardProxy, Conn, max_connect_header_bytes}
use cc_mysub.Proxy.Chain.{Outbound, default_per_minute, per_minute_of}
use cc_mysub.Proxy.Chain.Swap.{IsSwapped}
use cc_mysub.Proxy.Session.{serve_conn}
use cc_mysub.Proxy.Session.Enrolled.{enrolled_served}
use cc_mysub.Tests.Data.{
  laptop_fp, toy_sha, anthropic, conn_of, upstream, net, usage, world, ask, telemetry,
}
use cc_mysub.Tests.Registry.{list_codec, writer, config_dir, flags, all_rows}
use cc_mysub.Tests.Session.{self, inner}

abbrev label : Bytes
label = codes "laptop"

abbrev written : Bytes
written =
    (b'[' ∷ all_rows (new_device (flags false label laptop_fp).params laptop_fp ∷ [])) ++ 10 ∷ []

run_done :
    (run toy_sha
      (λ b. none)
      list_codec
      writer
      (flags false label laptop_fp)
      (ok none)
      absent
      config_dir).1
    ≡ ok laptop_fp
unfolding run canonical_fingerprint equal
run_done = refl

run_written :
    (run toy_sha
      (λ b. none)
      list_codec
      writer
      (flags false label laptop_fp)
      (ok none)
      absent
      config_dir).0.devices
    ≡ content written
unfolding run canonical_fingerprint equal
run_written = refl

abbrev disk : Disk
disk = record { stat = some 9; content = some written }

-- A store that has loaded no device yet.
abbrev store : DeviceStore
store = record { by_hash = []; last_mod = 5 }

abbrev proxy : ForwardProxy
proxy = record { auth = quiet list_codec.decode 1 disk store; allow = (anthropic, true) ∷ [] }

abbrev line : Bytes
line = codes "CONNECT api.anthropic.com:443 HTTP/1.1\r\n"

abbrev conn : Conn
conn = conn_of (chained_request (target_of line) ++ codes "hello")

cert_known : cert_fingerprint toy_sha (codes "der") ≡ laptop_fp
unfolding cert_fingerprint
cert_known = refl

line_named : parse_connect line ≡ some anthropic
unfolding parse_connect equal
line_named = refl

line_target : target_of line ≡ codes "api.anthropic.com:443"
unfolding target_of
line_target = refl

target_fits : 2 * length (target_of line) + 29 ≤ max_connect_header_bytes
target_fits = rw line_target (omega arith)

allowed : has proxy.allow anthropic ≡ true
unfolding has equal
allowed = refl

abbrev leaf : Cert
leaf = record { der = anthropic; leaf = template 60 anthropic 3 }

minted : (cert_for self (new_minter 60) anthropic 3).1 ≡ ok leaf
unfolding cert_for
minted = refl

asks : has_inbound_credential ask.header ≡ true
unfolding has_inbound_credential equal
asks = refl

token : pick_token upstream (codes "max") ≢ []
unfolding pick_token equal
token e = cc

within :
    (allow [] label
      (per_minute_of default_per_minute
        (some (new_device (flags false label laptop_fp).params laptop_fp)))
      5).0
    ≡ true
unfolding allow per_minute_of
within = refl

enrolled_served_example :
    (outs : List Outbound) × (out : Outbound) × ((serve_conn upstream net usage self 3 inner toy_sha
        proxy conn
        (new_minter 60)
        world).1.sent
      ≡ outs ++ out ∷ [])
    × IsSwapped (pick_token upstream (codes "max")) ask out
enrolled_served_example =
    enrolled_served toy_sha (λ b. none) list_codec writer (flags false label laptop_fp) (ok none)
      absent config_dir laptop_fp written run_done run_written disk 9 refl refl store 0
      (omega arith) upstream net usage self 3 inner proxy refl conn (new_minter 60) world
      (codes "der") line anthropic (codes "hello") leaf 5 ask ((6, telemetry) ∷ (7, ask) ∷ []) refl
      cert_known refl allowed line_named target_fits refl minted refl asks token (inr within)
