-- ===== src/Proxy/Prefix/Order.antt =====
-- The order of the bytes that the inner TLS reads.
use cc_mysub.Base.{
  ℕ, ◌≤◌, Bytes, is_empty, is_empty-true, Bool-cases, take, drop, take-append-drop, length,
  length-append, List, [], ◌∷◌, ◌++◌, append_assoc, ◌≡◌, refl, sym, ap, ◌∙◌, inl, inr, arith,
}
use cc_mysub.Auth.Token.{Sha256}
use cc_mysub.Auth.Store.{Device}
use cc_mysub.Proxy.Handle.{max_connect_header_bytes, ForwardProxy, Conn, tunnel}
use cc_mysub.Proxy.Handle
use cc_mysub.Proxy.Handle.Admission.{handle-Admitted}
use cc_mysub.Proxy.Prefix.{PrefixConn, base_conn, at_most, read, joined, reads}

-- All that a connection has yet to give.
abbrev pub left : PrefixConn → Bytes
left c = c.prefix ++ c.conn

read-left :
    (size given : ℕ) (c : PrefixConn) → (read size given c).0 ++ left (read size given c).1 ≡ left c
unfolding read
read-left size given c = elim (Bool-cases (is_empty c.prefix)) [
  | inl e ↦ rw (e, is_empty-true c.prefix e) (take-append-drop (at_most given size) c.conn)
  | inr e ↦ rw e (
      sym (append_assoc (take size c.prefix) (drop size c.prefix) c.conn)
      ∙ ap (λ p. p ++ c.conn) (take-append-drop size c.prefix))
]

joined-left :
    (out all : Bytes) (q : Bytes × PrefixConn) (mid : Bytes)
    → out ++ mid ≡ all
    → q.0 ++ left q.1 ≡ mid
    → (joined out q).0 ++ left (joined out q).1 ≡ all
unfolding joined
joined-left out all (more, c) mid e f = append_assoc out more (left c) ∙ ap (λ x. out ++ x) f ∙ e

reads-left : (qs : List (ℕ × ℕ)) (c : PrefixConn) → (reads qs c).0 ++ left (reads qs c).1 ≡ left c
unfolding reads
reads-left [] c = refl
reads-left ((size, given) ∷ qs) c =
    joined-left (read size given c).0 (left c) (reads qs (read size given c).1)
      (left (read size given c).1) (read-left size given c) (reads-left qs (read size given c).1)

-- Where handle opens a tunnel, and however much of its stream was buffered, whatever sizes the reads of
-- the inner TLS have and however much the connection gives at a time: a head of at most
-- maxConnectHeaderBytes bytes, then all that was read, then all that is left to read, make up exactly
-- what the client sent.
pub reads-tunnel :
    (sha : Sha256) (fp : ForwardProxy) (conn : Conn) (d : Device) (host buffered rest : Bytes)
    (qs : List (ℕ × ℕ))
    → Handle.handle sha fp conn ≡ tunnel d host (buffered ++ rest)
    → (head : Bytes) × (length head ≤ max_connect_header_bytes)
      × (head
            ++ ((reads qs (base_conn buffered rest)).0
                ++ left (reads qs (base_conn buffered rest)).1)
          ≡ conn.input)
reads-tunnel sha fp conn d host buffered rest qs h =
    let a = handle-Admitted sha fp conn d host (buffered ++ rest) h in
    (
      a.line ++ a.headers,
      omega (arith, length-append a.line a.headers, a.bounded),
      ap (λ x. (a.line ++ a.headers) ++ x) (reads-left qs (base_conn buffered rest))
          ∙ append_assoc a.line a.headers (buffered ++ rest)
          ∙ sym a.consumed,
    )
