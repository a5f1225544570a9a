-- ===== src/Proxy/Prefix.antt =====
-- prefixConn of internal/proxy/forward.go, and how handle puts it under the inner TLS: bytes that the
-- buffered reader has taken from the outer connection are given again before it is read on.
pub mod Order
use cc_mysub.Base.{
  ℕ, ◌+◌, Bytes, Bool, is_empty, take, drop, ltb, List, [], ◌∷◌, ◌++◌, if◌then◌else◌,
}

-- What is left of the prefix, and what the outer connection has yet to give.
pub record PrefixConn : Type 0 where
  pub prefix : Bytes
  pub conn : Bytes

-- A connection without buffered bytes is used as it is, as one with an empty prefix would be.
abbrev pub base_conn : Bytes → Bytes → PrefixConn
base_conn buffered rest = record { prefix = buffered; conn = rest }

abbrev pub at_most : ℕ → ℕ → ℕ
at_most n m = if ltb n m then n else m

-- Read into a buffer of `size` bytes. The outer connection gives as many bytes as it likes, up to that.
unfoldable pub read : ℕ → ℕ → PrefixConn → Bytes × PrefixConn
unfolding is_empty
read size given c =
    if is_empty c.prefix
    then (take (at_most given size) c.conn, record c { conn = drop (at_most given size) c.conn })
    else (take size c.prefix, record c { prefix = drop size c.prefix })

joined : Bytes → Bytes × PrefixConn → Bytes × PrefixConn
joined out (more, c) = (out ++ more, c)

-- Successive reads, with the size of each buffer, and all that they give.
unfoldable pub reads : List (ℕ × ℕ) → PrefixConn → Bytes × PrefixConn
unfolding read joined
reads [] c = ([], c)
reads ((size, given) ∷ more) c = let (out, c') = read size given c in joined out (reads more c')
