-- ===== src/Connect/Address.antt =====
-- ValidHost of internal/connect/connect.go, with net.ParseIP as far as it accepts or refuses.
pub mod Safe
use cc_mysub.Base.{
  ℕ, zero, suc, ◌+◌, ◌-◌, ◌*◌, Bytes, Bool, true, false, not, ◌&&◌, ◌||◌, ltb, leb, ◌==◌, is_empty,
  all_bytes, length, Option, none, some, [], ◌∷◌, if◌then◌else◌,
}

abbrev pub is_digit : ℕ → Bool
is_digit c = leb b'0' c && leb c b'9'

abbrev pub is_letter : ℕ → Bool
is_letter c = (leb b'a' c && leb c b'z') || (leb b'A' c && leb c b'Z')

abbrev pub is_hex : ℕ → Bool
is_hex c = is_digit c || (leb b'a' c && leb c b'f') || (leb b'A' c && leb c b'F')

-- netip's parseIPv4Fields: the value, the number of digits and the place of the octet being read.
pub ipv4_fields : ℕ → ℕ → ℕ → Bytes → Bool
ipv4_fields val digits place [] = not (ltb place 3)
ipv4_fields val digits place (c ∷ s) =
    let next = val * 10 + (c - b'0') in
    let digit = ipv4_fields next (digits + 1) place s in
    let dot = ipv4_fields 0 0 (place + 1) s in
    if is_digit c
    then (if digits == 1 && val == 0 then false else if ltb 255 next then false else digit)
    else if c == b'.'
    then (if digits == 0 || is_empty s || place == 3 then false else dot)
    else false

-- One group of netip's parseIPv6: how many digits there were before it (at most four), and what follows.
pub hex_group : ℕ → Bytes → Option (ℕ × Bytes)
hex_group off [] = some (off, [])
hex_group off (c ∷ s) =
    let more = hex_group (off + 1) s in
    if is_hex c then (if ltb 3 off then none else more) else some (off, c ∷ s)

-- Behind the loop: the whole text is used, and an ellipsis stands for at least one group.
pub ipv6_end : ℕ → Bool → Bytes → Bool
ipv6_end i ellipsis s = is_empty s && (if ltb i 16 then ellipsis else not ellipsis)

-- Behind a colon: an ellipsis, or the next group, which `again` reads.
pub ipv6_colon : (Bool → Bytes → Bool) → ℕ → Bool → Bytes → Bool
ipv6_colon again i ellipsis [] = false
ipv6_colon again i ellipsis (d ∷ r) =
    if d == b':'
    then (if ellipsis then false else if is_empty r then ipv6_end (i + 2) true [] else again true r)
    else again ellipsis (d ∷ r)

-- Behind a group that began at `s`.
pub ipv6_next : (Bool → Bytes → Bool) → ℕ → Bool → Bytes → Bytes → Bool
unfolding ipv4_fields
ipv6_next again i ellipsis s [] = ipv6_end (i + 2) ellipsis []
ipv6_next again i ellipsis s (c ∷ r) =
    if c == b'.'
    then (if not ellipsis && not (i == 12)
        then false
        else if ltb 16 (i + 4)
        then false
        else ipv4_fields 0 0 0 s && ipv6_end (i + 4) ellipsis [])
    else if c == b':'
    then ipv6_colon again i ellipsis r
    else false

pub ipv6_group : (Bool → Bytes → Bool) → ℕ → Bool → Bytes → Option (ℕ × Bytes) → Bool
ipv6_group again i ellipsis s none = false
ipv6_group again i ellipsis s (some (off, r)) =
    if off == 0 then false else ipv6_next again i ellipsis s r

-- The loop: `i` of the 16 bytes are filled, in `left` more groups the rest will be.
pub ipv6_loop : ℕ → ℕ → Bool → Bytes → Bool
ipv6_loop zero i ellipsis s = ipv6_end i ellipsis s
ipv6_loop (suc left) i ellipsis s = ipv6_group (ipv6_loop left (i + 2)) i ellipsis s (hex_group 0 s)

pub ipv6_start : Bytes → Bool
ipv6_start (a ∷ b ∷ s) =
    if a == b':' && b == b':'
    then is_empty s || ipv6_loop 8 0 true s
    else ipv6_loop 8 0 false (a ∷ b ∷ s)
ipv6_start s = ipv6_loop 8 0 false s

-- A zone is refused, here or by ParseIP itself.
pub ipv6 : Bytes → Bool
ipv6 s = all_bytes (λ c. not (c == b'%')) s && ipv6_start s

pub ip_scan : Bytes → Bytes → Bool
ip_scan whole [] = false
ip_scan whole (c ∷ s) =
    let rest = ip_scan whole s in
    if c == b'.'
    then ipv4_fields 0 0 0 whole
    else if c == b':'
    then ipv6 whole
    else if c == b'%'
    then false
    else rest

-- net.ParseIP(s) != nil
unfoldable pub parse_ip : Bytes → Bool
unfolding ip_scan ipv4_fields ipv6 ipv6_start ipv6_loop ipv6_group ipv6_next ipv6_colon ipv6_end
    hex_group is_empty
parse_ip s = ip_scan s s

-- The source ranges over runes; a byte outside ASCII is a rune that is refused as well.
abbrev pub host_char : ℕ → Bool
host_char c = is_letter c || is_digit c || c == b'-' || c == b'.'

unfoldable pub valid_host : Bytes → Bool
unfolding is_empty parse_ip
valid_host h =
    if is_empty h || ltb 253 (length h)
    then false
    else if parse_ip h
    then true
    else all_bytes host_char h
