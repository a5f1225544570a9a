-- ===== src/Connect/HostPort.antt =====
-- net.SplitHostPort; `none` is its error.
pub mod Join
use cc_mysub.Base.{
  ℕ, suc, ◌+◌, Bytes, Bool, true, false, ◌||◌, ◌==◌, length, drop, Option, none, some, [], ◌∷◌,
  if◌then◌else◌,
}

abbrev pub cons_left : ℕ → Option (Bytes × Bytes) → Option (Bytes × Bytes)
cons_left c none = none
cons_left c (some (x, y)) = some (c ∷ x, y)

-- The text before and behind the first such byte, and the last.
pub split_first : ℕ → Bytes → Option (Bytes × Bytes)
split_first b [] = none
split_first b (c ∷ s) = if c == b then some ([], s) else cons_left c (split_first b s)

abbrev last_at : ℕ → ℕ → Bytes → Option (Bytes × Bytes) → Option (Bytes × Bytes)
last_at b c s none = if c == b then some ([], s) else none
last_at b c s (some (x, y)) = some (c ∷ x, y)

pub split_last : ℕ → Bytes → Option (Bytes × Bytes)
split_last b [] = none
split_last b (c ∷ s) = last_at b c s (split_last b s)

-- IndexByte(s, b) >= 0
unfoldable pub has_byte : ℕ → Bytes → Bool
has_byte b [] = false
has_byte b (c ∷ s) = c == b || has_byte b s

abbrev pub HostAndPort : Type 0
HostAndPort = Option (Bytes × Bytes)

-- hostport begins with '[': `x` stands before the first ']', `tail` behind it; `i` is the place of the
-- last colon.
bracketed : Bytes → ℕ → Bytes → Option (Bytes × Bytes) → HostAndPort
unfolding has_byte
bracketed hostport i port none = none
bracketed hostport i port (some (x, tail)) =
    if length x + 1 == length hostport
    then none
    else if length x + 1 == i
    then (if has_byte b'[' (drop 1 hostport) || has_byte b']' tail
        then none
        else some (drop 1 x, port))
    else none

plain : Bytes → Bytes → Bytes → HostAndPort
unfolding has_byte
plain hostport host port =
    if has_byte b':' host || has_byte b'[' hostport || has_byte b']' hostport
    then none
    else some (host, port)

abbrev begins_with : ℕ → Bytes → Bool
begins_with b [] = false
begins_with b (c ∷ s) = c == b

at_colon : Bytes → Option (Bytes × Bytes) → HostAndPort
unfolding bracketed plain split_first
at_colon hostport none = none
at_colon hostport (some (host, port)) =
    if begins_with b'[' hostport
    then bracketed hostport (length host) port (split_first b']' hostport)
    else plain hostport host port

unfoldable pub split_host_port : Bytes → HostAndPort
unfolding at_colon split_last
split_host_port hostport = at_colon hostport (split_last b':' hostport)
