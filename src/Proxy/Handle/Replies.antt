-- ===== src/Proxy/Handle/Replies.antt =====
-- The answers of the proxy to well-formed, oversized and unfinished requests of a registered device.
use cc_mysub.Base.{
  ℕ, suc, ◌+◌, ◌≤◌, Bytes, true, false, not, ◌==◌, ltb, ltb_of_le, lt→ltb, length, length-append,
  All, List, [], ◌∷◌, ◌++◌, append-nil, append_assoc, some, and-true, ◌≡◌, refl, ◌∙◌, arith,
  if◌then◌else◌,
}
use cc_mysub.Auth.Token.{Sha256, cert_fingerprint}
use cc_mysub.Auth.Store.{Device, lookup_device}
use cc_mysub.Stream.{newline, is_blank_line, read_line, has}
use cc_mysub.Stream.Laws.{
  one_line, read_line-append, read_line-none, header_block, IsHeader, block_size, carriage_return,
}
use cc_mysub.Connect.Parse.{parse_connect}
use cc_mysub.Proxy.Handle.{
  max_connect_header_bytes, ForwardProxy, Conn, closed, tunnel, bad_request, too_long, rest,
  drain_capped, establish, connect_host, first_line, admit, peer_device, handle,
}

drain_capped-line :
    (count : ℕ) (h cur s : Bytes)
    → one_line h ≡ true
    → drain_capped count cur (h ++ newline ∷ s) ≡ (
        if ltb max_connect_header_bytes (count + suc (length (cur ++ h)))
        then too_long
        else if is_blank_line (cur ++ h)
        then rest s
        else drain_capped (count + suc (length (cur ++ h))) [] s)
unfolding drain_capped
drain_capped-line count [] cur s o = rw append-nil
drain_capped-line count (c ∷ h) cur s o =
    let (a, b) = and-true (not (c == newline)) (one_line h) o in
    let e : (c == newline) ≡ false = ground arith in
    rw e (rw (drain_capped-line count h (cur ++ c ∷ []) s b, append_assoc cur (c ∷ []) h))

-- Headers within the cap.
drain_capped-block :
    (count : ℕ) (hs : List Bytes) (r : Bytes)
    → All IsHeader hs
    → count + block_size hs + 2 ≤ max_connect_header_bytes
    → drain_capped count [] (header_block hs (carriage_return ++ newline ∷ r)) ≡ rest r
unfolding drain_capped
drain_capped-block count [] r h le =
    drain_capped-line count carriage_return [] r refl
    ∙ rw (ltb_of_le max_connect_header_bytes (count + 2) (omega arith))
drain_capped-block count (x ∷ hs) r h le =
    let s = header_block hs (carriage_return ++ newline ∷ r) in
    drain_capped-line count x [] s h.0.0
    ∙ rw (ltb_of_le max_connect_header_bytes (count + suc (length x)) (omega arith), h.0.1)
        (drain_capped-block (count + suc (length x)) hs r h.1 (omega arith))

-- A registered client, after its handshake.
module _ (sha : Sha256) (fp : ForwardProxy) (conn : Conn) (der : Bytes) (d : Device)
    (presented : conn.cert ≡ some der)
    (registered : lookup_device fp.auth (cert_fingerprint sha der) ≡ some d) where
  handle-first_line : handle sha fp conn ≡ first_line fp conn d (read_line conn.input)
  unfolding handle
  handle-first_line = rw (presented, peer_device, registered, admit)

  -- A registered client whose line names an allowed host gets a tunnel to that host, with what follows
  -- its headers, if the line and the headers, the blank line included, have at most
  -- maxConnectHeaderBytes bytes and the 200 can be written.
  pub handle_complete :
      (line host r : Bytes) (hs : List Bytes)
      → one_line line ≡ true
      → parse_connect (line ++ newline ∷ []) ≡ some host
      → has fp.allow host ≡ true
      → conn.accepts_write ≡ true
      → All IsHeader hs
      → suc (length line) + block_size hs + 2 ≤ max_connect_header_bytes
      → conn.input ≡ line ++ newline ∷ header_block hs (carriage_return ++ newline ∷ r)
      → handle sha fp conn ≡ tunnel d host r
  unfolding first_line
  handle_complete line host r hs o p a w k le e =
      let small : ltb max_connect_header_bytes (length (line ++ newline ∷ [])) ≡ false =
        ltb_of_le _ _ (omega (arith, length-append line (newline ∷ []))) in
      let drained =
        drain_capped-block (length (line ++ newline ∷ [])) hs r k
          (omega (arith, length-append line (newline ∷ []))) in
      handle-first_line
      ∙ rw (
        e,
        read_line-append line _ o,
        first_line,
        small,
        p,
        connect_host,
        drained,
        establish,
        a,
        w,
      )

  -- A registered client whose first line has maxConnectHeaderBytes bytes or more before its newline,
  -- however many, is answered by 400 and closed.
  pub handle-oversized :
      (line r : Bytes)
      → one_line line ≡ true
      → max_connect_header_bytes ≤ length line
      → conn.input ≡ line ++ newline ∷ r
      → handle sha fp conn ≡ closed bad_request
  unfolding first_line
  handle-oversized line r o le e =
      let big : ltb max_connect_header_bytes (length (line ++ newline ∷ [])) ≡ true =
        lt→ltb _ _ (omega (arith, length-append line (newline ∷ []))) in
      handle-first_line ∙ rw (e, read_line-append line r o, first_line, big)

  -- A registered client that sends no newline, however many bytes it sends until it ends, is closed
  -- without an answer.
  pub handle-endless : one_line conn.input ≡ true → handle sha fp conn ≡ closed []
  unfolding first_line
  handle-endless o = handle-first_line ∙ rw (read_line-none conn.input o, first_line)
