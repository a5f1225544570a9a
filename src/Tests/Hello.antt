-- ===== src/Tests/Hello.antt =====
-- Tests of the ClientHello parser.
use cc_mysub.Base.{◌+◌, Bytes, codes, length, [], ◌∷◌, ◌++◌, some, ◌≡◌, refl, arith}
use cc_mysub.Collector.{parse_sni, absent}
use cc_mysub.Collector.Slices.{Safe}
use cc_mysub.Collector.Bounds.{parse_sni-Safe}
use cc_mysub.Collector.Entries.{entry, extension}
use cc_mysub.Collector.Hello.{Hello, parse_sni-record}
use cc_mysub.Collector.Hello
use cc_mysub.Tests.Data.{letters, length-letters}

-- A record with one host name of four bytes.
abbrev record_of : Bytes → Bytes
record_of ext =
    22
    ∷ 3
    ∷ 1
    ∷ 0
    ∷ (44 + length ext)
    ∷ 1
    ∷ 0
    ∷ 0
    ∷ 0
    ∷ (letters 34 ++ (0 ∷ 0 ∷ 0 ∷ 0 ∷ 0 ∷ length ext ∷ ext))

abbrev server_name : Bytes
server_name = 0 ∷ 0 ∷ 0 ∷ 9 ∷ 0 ∷ 7 ∷ 0 ∷ 0 ∷ 4 ∷ codes "a.io"

abbrev hello : Bytes
hello = record_of (0 ∷ 5 ∷ 0 ∷ 1 ∷ 9 ∷ server_name)

parse_sni-Safe_example : Safe hello (parse_sni hello)
parse_sni-Safe_example = parse_sni-Safe hello

host_found : parse_sni hello ≡ some (some (codes "a.io"))
unfolding parse_sni
host_found = refl

-- Cut off behind the extensions' length, and with a name longer than its extension.
cut_off : parse_sni (record_of []) ≡ absent
unfolding parse_sni
cut_off = refl

too_long : parse_sni (record_of (0 ∷ 0 ∷ 0 ∷ 5 ∷ 0 ∷ 3 ∷ 0 ∷ 0 ∷ 4 ∷ [])) ≡ absent
unfolding parse_sni
too_long = refl

-- An extension before the server's name, a name of another type before the host, and more behind both.
abbrev rich : Hello
rich = record {
  record_version = (3, 1);
  hello_length = (0, 1, 2);
  version_random = letters 34;
  session_id = letters 32;
  cipher_suites = 0x13 ∷ 1 ∷ [];
  compression_methods = 0 ∷ [];
  before = (16, codes "alpn") ∷ [];
  others = (1, codes "other") ∷ [];
  host = codes "api.anthropic.com";
  names_behind = entry 0 (codes "second.name");
  behind = extension 43 (codes "versions");
}

rich-IsValid : Hello.IsValid rich
rich-IsValid = record {
  fixed = length-letters 34;
  other_extensions = ((λ e. omega (arith, e)), tt);
  other_names = ((λ e. omega (arith, e)), tt);
}

parse_sni-record_example :
    parse_sni (Hello.record_of rich ++ codes "next record")
    ≡ some (some (codes "api.anthropic.com"))
parse_sni-record_example = parse_sni-record rich (codes "next record") rich-IsValid
