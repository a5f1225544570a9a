-- ===== src/Tests/Formats.antt =====
-- Tests of what is read: CONNECT lines, hosts, and the pool of tokens.
use mathlib.Core.Bool.{false≢true}
use cc_mysub.Base.{
  pos, if◌then◌else◌, equal_iff, equal, Bytes, codes, true, all_bytes, [], ◌∷◌, ◌++◌, Option, some,
  ok, ◌≡◌, ◌≢◌, ◌↔◌, inr, refl, arith,
}
use cc_mysub.Config.{Upstream, UpstreamToken, parse_upstream}
use cc_mysub.Config.Pool.{IsValid, parse_upstream_iff}
use cc_mysub.Connect.Address.{valid_host}
use cc_mysub.Connect.Parse.{parse_connect}
use cc_mysub.Connect.Parse.Target.{connect_line}
use cc_mysub.Connect.Parse.RoundTrip.{port_char, parse_connect-host}
use cc_mysub.Proxy.Usage.{UsageWire, split_lines, sniff_usage_sse}
use cc_mysub.Proxy.Usage.Last.{Last, told, model_in, input_in, output_in, sniff_usage_sse-Last}

abbrev first : UpstreamToken
first = record { id = codes "max"; token = codes "secret" }

abbrev second : UpstreamToken
second = record { id = codes "pro"; token = codes "other" }

abbrev pool : Upstream
pool = record { oauth_token = []; oauth_tokens = first ∷ second ∷ [] }

other_id : second.id ≢ first.id
unfolding equal
other_id e = false≢true ((equal_iff second.id first.id).1 e)

pool-IsValid : IsValid pool
pool-IsValid = record {
  some_token = inr (λ e. cc);
  filled = (((λ e. cc), λ e. cc), (((λ e. cc), λ e. cc), tt));
  distinct = ((other_id, tt), (tt, tt));
}

abbrev decode : Bytes → Option Upstream
decode b = some pool

parse_upstream_iff_example : (parse_upstream decode (codes "{}") ≡ ok pool) ↔ IsValid pool
parse_upstream_iff_example = parse_upstream_iff decode (codes "{}") pool refl

abbrev name : Bytes
name = codes "api.anthropic.com"

name_valid : valid_host name ≡ true
unfolding valid_host
name_valid = refl

abbrev line : Bytes
line = codes "CONNECT  api.anthropic.com:443 HTTP/1.0\n"

line_named : parse_connect line ≡ some name
unfolding parse_connect equal
line_named = refl

parse_connect-host_example : parse_connect (connect_line (name ++ b':' ∷ codes "443")) ≡ some name
parse_connect-host_example =
    parse_connect-host name (codes "443") (λ e. cc) (omega arith) refl port_ok
  where
    port_ok : all_bytes port_char (codes "443") ≡ true
    port_ok = refl

-- A stream of two frames, and a decoder that tells them apart.
abbrev stream : Bytes
stream = codes "data: a\nevent: x\ndata: b\n"

abbrev start : UsageWire
start = record {
  model = [];
  message_model = codes "m";
  message_usage = record { input = pos 7; output = pos 1 };
  usage = record { input = pos 0; output = pos 0 };
}

abbrev delta : UsageWire
delta = record start { message_model = []; usage = record { input = pos 0; output = pos 9 } }

abbrev decode_frame : Bytes → Option UsageWire
decode_frame b = if equal b (codes "a") then some start else some delta

sniff_usage_sse-Last_example :
    Last
      (told decode_frame model_in)
      []
      (split_lines stream)
      (sniff_usage_sse decode_frame stream).model
    × Last
        (told decode_frame input_in)
        (pos 0)
        (split_lines stream)
        (sniff_usage_sse decode_frame stream).input_tokens
    × Last
        (told decode_frame output_in)
        (pos 0)
        (split_lines stream)
        (sniff_usage_sse decode_frame stream).output_tokens
sniff_usage_sse-Last_example = sniff_usage_sse-Last decode_frame stream

sniffed :
    sniff_usage_sse decode_frame stream
    ≡ record { model = codes "m"; input_tokens = pos 7; output_tokens = pos 9 }
unfolding sniff_usage_sse equal
sniffed = refl
