-- ===== src/Stream.antt =====
-- bufio.Reader over a connection, as the program reads CONNECT lines and headers. A stream is all the
-- bytes that the peer sends before it closes, fails or runs into a deadline.
pub mod Laws
use cc_mysub.Base.{
  ℕ, ◌+◌, Bytes, codes, Bool, true, false, ◌||◌, ◌==◌, ltb, equal, length, Dict, lookup, insert,
  List, [], ◌∷◌, ◌++◌, Option, none, some, if◌then◌else◌,
}

abbrev pub newline : ℕ
newline = 10

abbrev prepend : ℕ → Option (Bytes × Bytes) → Option (Bytes × Bytes)
prepend c none = none
prepend c (some (line, rest)) = some (c ∷ line, rest)

-- ReadString('\n'): the line with its newline and what is left, or an error where there is none.
unfoldable pub read_line : Bytes → Option (Bytes × Bytes)
read_line [] = none
read_line (c ∷ s) = if c == newline then some (c ∷ [], s) else prepend c (read_line s)

-- h == "\r\n" || h == "\n", for the line without its newline.
abbrev pub is_blank_line : Bytes → Bool
is_blank_line h = equal h (codes "\r") || equal h []

-- The loop that reads header lines up to a blank one; `cur` is the line read so far. It gives what is
-- left, or an error where the stream ends first.
unfoldable pub drain_headers : Bytes → Bytes → Option Bytes
unfolding equal
drain_headers cur [] = none
drain_headers cur (c ∷ s) =
    let next = drain_headers [] s in
    let more = drain_headers (cur ++ c ∷ []) s in
    if c == newline then (if is_blank_line cur then some s else next) else more

-- m := make(map[string]bool); for _, h := range hs { m[h] = true }
unfoldable pub set_of : List Bytes → Dict Bool → Dict Bool
unfolding insert
set_of [] m = m
set_of (h ∷ hs) m = set_of hs (insert h true m)

-- m[h]
unfoldable pub has : Dict Bool → Bytes → Bool
unfolding lookup
has m h = elim (lookup h m) [ none ↦ false | some b ↦ b ]
