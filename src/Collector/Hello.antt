-- ===== src/Collector/Hello.antt =====
-- The ClientHello records that ci/egress/collector/sni.go is for, and what it finds in them.
use cc_mysub.Base.{
  ℕ, suc, ◌+◌, ◌*◌, ◌/◌, ◌%◌, ◌≤◌, Bytes, ◌||◌, ltb, ltb_of_le, length, length-append, take, drop,
  All, List, [], ◌∷◌, ◌++◌, append-nil, some, ◌≡◌, sym, ap, ◌∙◌, arith, if◌then◌else◌,
}
use cc_mysub.Collector.{
  absent, from, upto, step, skip8, skip16, extensions, extension_block, client_hello, handshake,
  parse_sni,
}
use cc_mysub.Collector.Wire.{
  vec8, vec16, be16-value, drop_part, take_part, part_within, pass, from_pass, upto_pass,
  skip8-vec8, skip16-vec16,
}
use cc_mysub.Collector.Entries.{Other, extension, all_extensions, name_list, extensions_host}

take_all : (xs : Bytes) → take (length xs) xs ≡ xs
take_all xs = ap (take (length xs)) (sym (append-nil xs)) ∙ take_part xs []

extension_block-vec16 : (e : Bytes) → extension_block (vec16 e) ≡ extensions (suc (length e)) e
unfolding extension_block
extension_block-vec16 e =
    let p = vec16 e in
    pass (length p) 2 _ _ (omega arith)
    ∙ from_pass 2 p
        (λ q.
          if ltb (length q) (length e / 256 * 256 + length e % 256)
          then absent
          else step (upto (length e / 256 * 256 + length e % 256) q)
              (λ x. extensions (suc (length x)) x))
        (omega arith)
    ∙ ap
        (λ n.
          if ltb (length e) n then absent else step (upto n e) (λ x. extensions (suc (length x)) x))
        (be16-value (length e))
    ∙ pass (length e) (length e) _ _ (omega arith)
    ∙ upto_pass (length e) e (λ x. extensions (suc (length x)) x) (omega arith)
    ∙ ap (λ x. extensions (suc (length x)) x) (take_all e)

-- A ClientHello that fills one record: its versions and its length are any bytes.
pub record Hello : Type 0 where
  pub record_version : ℕ × ℕ
  pub hello_length : ℕ × ℕ × ℕ
  pub version_random : Bytes
  pub session_id : Bytes
  pub cipher_suites : Bytes
  pub compression_methods : Bytes
  pub before : List (ℕ × Bytes)
  pub others : List (ℕ × Bytes)
  pub host : Bytes
  pub names_behind : Bytes
  pub behind : Bytes

abbrev pub extensions_of : Hello → Bytes
extensions_of h =
    all_extensions h.before
    ++ (extension 0 (vec16 (name_list h.others h.host h.names_behind)) ++ h.behind)

abbrev pub body_of : Hello → Bytes
body_of h =
    h.version_random
    ++ (vec8 h.session_id
        ++ (vec16 h.cipher_suites ++ (vec8 h.compression_methods ++ vec16 (extensions_of h))))

abbrev pub handshake_of : Hello → Bytes
handshake_of h = 1 ∷ h.hello_length.0 ∷ h.hello_length.1 ∷ h.hello_length.2 ∷ body_of h

abbrev pub record_of : Hello → Bytes
record_of h = 22 ∷ h.record_version.0 ∷ h.record_version.1 ∷ vec16 (handshake_of h)

-- The lengths that the format fixes, and the types of what stands before the host name.
pub record IsValid (h : Hello) : Type 0 where
  pub fixed : length h.version_random ≡ 34
  pub other_extensions : All Other h.before
  pub other_names : All Other h.others

client_hello-body : (h : Hello) → IsValid h → client_hello (body_of h) ≡ some (some h.host)
unfolding client_hello
client_hello-body h v =
    let c = vec8 h.compression_methods ++ vec16 (extensions_of h) in
    let b = vec16 h.cipher_suites ++ c in
    let a = vec8 h.session_id ++ b in
    let e = extensions_of h in
    let long : 34 ≤ length (body_of h) = omega (arith, v.fixed, length-append h.version_random a) in
    let dropped : drop 34 (body_of h) ≡ a =
      ap (λ n. drop n (body_of h)) (sym v.fixed) ∙ drop_part h.version_random a in
    pass (length (body_of h)) 34 _ _ long
    ∙ from_pass 34 (body_of h) (λ x. skip8 x (λ y. skip16 y (λ z. skip8 z extension_block))) long
    ∙ ap (λ x. skip8 x (λ y. skip16 y (λ z. skip8 z extension_block))) dropped
    ∙ skip8-vec8 h.session_id b (λ y. skip16 y (λ z. skip8 z extension_block))
    ∙ skip16-vec16 h.cipher_suites c (λ z. skip8 z extension_block)
    ∙ skip8-vec8 h.compression_methods (vec16 e) extension_block
    ∙ extension_block-vec16 e
    ∙ extensions_host h.before h.others (suc (length e)) h.host h.names_behind h.behind
        v.other_extensions v.other_names
        (omega (
          arith,
          length-append (all_extensions h.before)
              (extension 0 (vec16 (name_list h.others h.host h.names_behind)) ++ h.behind),
        ))

handshake-hello : (h : Hello) → IsValid h → handshake (handshake_of h) ≡ some (some h.host)
unfolding handshake
handshake-hello h v =
    from_pass 4 (handshake_of h) client_hello (omega arith) ∙ client_hello-body h v

-- For a ClientHello that fills one record, with any session id, cipher suites and compression methods,
-- any extensions of other types before its server_name and any extensions behind it, and any names of
-- other types before its host name: ParseSNI gives the host name, whatever follows the record.
pub parse_sni-record :
    (h : Hello) (rest : Bytes) → IsValid h → parse_sni (record_of h ++ rest) ≡ some (some h.host)
unfolding parse_sni
parse_sni-record h rest v =
    let hs = handshake_of h in
    let p = record_of h ++ rest in
    let w = part_within hs rest in
    pass (length p) 5 _ _ (omega arith)
    ∙ ap
        (λ n.
          step (from 5 p)
            (λ x. if ltb (length x) n || ltb n 4 then absent else step (upto n x) handshake))
        (be16-value (length hs))
    ∙ from_pass 5 p
        (λ x.
          if ltb (length x) (length hs) || ltb (length hs) 4
          then absent
          else step (upto (length hs) x) handshake)
        (omega arith)
    ∙ rw (ltb_of_le (length (hs ++ rest)) (length hs) w, ltb_of_le (length hs) 4 (omega arith))
        (upto_pass (length hs) (hs ++ rest) handshake w)
    ∙ ap handshake (take_part hs rest)
    ∙ handshake-hello h v
