-- ===== src/Connect/Parse/RoundTrip.antt =====
-- A well-formed CONNECT line is read as the host that it names.
use cc_mysub.Base.{
  ℕ, ◌≤◌, Bytes, codes, Bool, true, not, ◌&&◌, ◌==◌, fields, space_width-is_plain, is_plain,
  is_empty-false, all_bytes-append, List, [], ◌∷◌, ◌++◌, some, length, all_bytes, ◌≡◌, ◌≢◌, refl,
  ap, ◌∙◌, arith,
}
use cc_mysub.Connect.Address.{host_char, valid_host}
use cc_mysub.Connect.HostPort.{split_host_port}
use cc_mysub.Connect.HostPort.Join.{IsClear, IsClear-nil, IsClear-cons, split_host_port-join}
use cc_mysub.Connect.Parse.{connect_word, connect_fields, parse_connect}
use cc_mysub.Connect.Parse.Words.{FreeBefore, IsField}
use cc_mysub.Connect.Parse.Target.{connect_line, fields-connect_line}

-- A printable byte other than those by which SplitHostPort splits.
abbrev pub port_char : ℕ → Bool
port_char c = is_plain c && not (c == b':') && not (c == b'[') && not (c == b']')

port_char-IsClear : (s : Bytes) → all_bytes port_char s ≡ true → IsClear s
port_char-IsClear [] h = IsClear-nil
port_char-IsClear (c ∷ s) h =
    IsClear-cons c s (ground arith) (ground arith) (ground arith)
      (port_char-IsClear s (ground arith))

host_char-port_char : (s : Bytes) → all_bytes host_char s ≡ true → all_bytes port_char s ≡ true
host_char-port_char [] h = refl
host_char-port_char (c ∷ s) h = ground (arith, host_char-port_char s)

plain-FreeBefore : (s t : Bytes) → all_bytes is_plain s ≡ true → FreeBefore s t
plain-FreeBefore [] t h = tt
plain-FreeBefore (c ∷ s) t h =
    (space_width-is_plain c (s ++ t) (ground arith), plain-FreeBefore s t (ground arith))

port_char-is_plain : (s : Bytes) → all_bytes port_char s ≡ true → all_bytes is_plain s ≡ true
port_char-is_plain [] h = refl
port_char-is_plain (c ∷ s) h = ground (arith, port_char-is_plain s)

append-ne-nil : (s : Bytes) (c : ℕ) (t : Bytes) → s ++ c ∷ t ≢ []
append-ne-nil [] c t e = cc
append-ne-nil (x ∷ s) c t e = cc

join-IsField :
    (host port : Bytes)
    → host ≢ []
    → all_bytes port_char host ≡ true
    → all_bytes port_char port ≡ true
    → IsField (host ++ b':' ∷ port)
join-IsField host port n h p = (
  append-ne-nil host b':' port,
  plain-FreeBefore (host ++ b':' ∷ port) (b' ' ∷ []) (
      rw (all_bytes-append is_plain host (b':' ∷ port), port_char-is_plain host h)
        (port_char-is_plain port p)),
)

valid_host-name :
    (host : Bytes)
    → host ≢ []
    → length host ≤ 253
    → all_bytes host_char host ≡ true
    → valid_host host ≡ true
unfolding valid_host
valid_host-name host n l h = ground (arith, is_empty-false host)

parse_connect-fields : (line : Bytes) → parse_connect line ≡ connect_fields (fields line)
unfolding parse_connect
parse_connect-fields line = refl

connect_fields-target :
    (target host port : Bytes) (more : List Bytes)
    → split_host_port target ≡ some (host, port)
    → valid_host host ≡ true
    → connect_fields (connect_word ∷ target ∷ more) ≡ some host
unfolding connect_fields
connect_fields-target target host port more s v = rw s (rw v)

-- For a host of 1 to 253 letters, digits, '-' and '.', and a port of printable bytes without ':', '['
-- and ']', parseConnect gives the host for the CONNECT line of host:port.
pub parse_connect-host :
    (host port : Bytes)
    → host ≢ []
    → length host ≤ 253
    → all_bytes host_char host ≡ true
    → all_bytes port_char port ≡ true
    → parse_connect (connect_line (host ++ b':' ∷ port)) ≡ some host
parse_connect-host host port n l h p =
    let h' = host_char-port_char host h in
    let t = join-IsField host port n h' p in
    parse_connect-fields (connect_line (host ++ b':' ∷ port))
    ∙ ap connect_fields (fields-connect_line _ t)
    ∙ connect_fields-target _ host port (codes "HTTP/1.1" ∷ [])
        (split_host_port-join host port n (port_char-IsClear host h') (port_char-IsClear port p))
        (valid_host-name host n l h)
