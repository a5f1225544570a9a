-- ===== src/Collector/Bounds.antt =====
-- The parser of ci/egress/collector/sni.go never leaves its input.
use cc_mysub.Base.{
  ℕ, zero, suc, ◌≤◌, ◌<◌, Bytes, not, ◌||◌, ◌==◌, ltb, le_of_ltb, Bool-cases, length, length-drop,
  take, drop, [], append-nil, some, inl, inr, refl, arith, if◌then◌else◌,
}
use cc_mysub.Collector.{
  Found, absent, from, upto, step, names, extensions, extension_block, client_hello, handshake,
  parse_sni,
}
use cc_mysub.Collector.Slices.{
  Within, Safe, length-take, absent-Safe, drop-Within, take-Within, at-Safe, word-Safe, from-Safe,
  upto-Safe, guard-Safe, if-Safe, skip8-Safe, skip16-Safe,
}

module _ (input : Bytes) where
  -- One entry, with what the loop does on the rest.
  entry-Safe :
      (t nl : ℕ) (r : Bytes) (loop : Bytes → Found)
      → nl ≤ length r
      → Within input r
      → ((q : Bytes) → length q ≤ length r → Within input q → Safe input (loop q))
      → Safe input (if t == 0 then step (upto nl r) (λ h. some (some h)) else step (from nl r) loop)
  entry-Safe t nl r loop g v f =
      if-Safe input (t == 0) _ _
        (upto-Safe input nl r _ g (inr (take nl r, refl, take-Within input nl r v)))
        (from-Safe input nl r loop g
          (f (drop nl r) (omega (arith, length-drop nl r)) (drop-Within input nl r v)))

  names-Safe :
      (fuel : ℕ) (sn : Bytes) (next : Found)
      → length sn < fuel
      → Within input sn
      → Safe input next
      → Safe input (names fuel sn next)
  unfolding names
  names-Safe zero sn next l w s = absurd (omega arith)
  names-Safe (suc fuel) sn next l w s = elim (Bool-cases (ltb (length sn) 3)) [
    | inl e ↦ rw e s
    | inr e ↦
        let h = le_of_ltb (length sn) 3 e in
        let r = drop 3 sn in
        rw e (
          at-Safe input 0 sn _ (omega arith) (λ t. word-Safe input 1 sn _ (omega arith) (λ nl.
            from-Safe input 3 sn
              (λ x.
                if ltb (length x) nl
                then absent
                else if t == 0
                then step (upto nl x) (λ y. some (some y))
                else step (from nl x) (λ more. names fuel more next))
              h
              (guard-Safe input (length r) nl _ (λ g.
                entry-Safe t nl r (λ more. names fuel more next) g (drop-Within input 3 sn w)
                  (λ q m v. names-Safe fuel q next (omega (arith, length-drop 3 sn)) v s))))))
  ]

  server_name-Safe :
      (ext : Bytes) (next : Found)
      → Within input ext
      → Safe input next
      → Safe input (
          if ltb (length ext) 2
          then absent
          else step (from 2 ext) (λ sn. names (suc (length sn)) sn next))
  server_name-Safe ext next v s = guard-Safe input (length ext) 2 _ (λ g.
      from-Safe input 2 ext (λ sn. names (suc (length sn)) sn next) g
        (names-Safe (suc (length (drop 2 ext))) (drop 2 ext) next (omega arith)
          (drop-Within input 2 ext v) s))

  -- One extension, with what the loop does on the rest.
  abbrev one_extension : (Bytes → Found) → ℕ → ℕ → Bytes → Found
  one_extension loop t n q = step (upto n q) (λ ext. step (from n q) (λ more.
      if not (t == 0)
      then loop more
      else if ltb (length ext) 2
      then absent
      else step (from 2 ext) (λ sn. names (suc (length sn)) sn (loop more))))

  one_extension-Safe :
      (loop : Bytes → Found) (t n : ℕ) (q : Bytes)
      → n ≤ length q
      → Within input q
      → ((r : Bytes) → length r ≤ length q → Within input r → Safe input (loop r))
      → Safe input (one_extension loop t n q)
  one_extension-Safe loop t n q g v f =
      let more = f (drop n q) (omega (arith, length-drop n q)) (drop-Within input n q v) in
      upto-Safe input n q
        (λ ext. step (from n q) (λ x.
          if not (t == 0)
          then loop x
          else if ltb (length ext) 2
          then absent
          else step (from 2 ext) (λ sn. names (suc (length sn)) sn (loop x))))
        g
        (from-Safe input n q
          (λ x.
            if not (t == 0)
            then loop x
            else if ltb (length (take n q)) 2
            then absent
            else step (from 2 (take n q)) (λ sn. names (suc (length sn)) sn (loop x)))
          g
          (if-Safe input (not (t == 0)) _ _ more
            (server_name-Safe (take n q) (loop (drop n q)) (take-Within input n q v) more)))

  extensions-Safe :
      (fuel : ℕ) (p : Bytes) → length p < fuel → Within input p → Safe input (extensions fuel p)
  unfolding extensions
  extensions-Safe zero p l w = absurd (omega arith)
  extensions-Safe (suc fuel) p l w = guard-Safe input (length p) 4 _ (λ h.
      word-Safe input 0 p _ (omega arith) (λ t. word-Safe input 2 p _ (omega arith) (λ n.
        from-Safe input 4 p
          (λ q. if ltb (length q) n then absent else one_extension (extensions fuel) t n q) h
          (guard-Safe input (length (drop 4 p)) n _ (λ g.
            one_extension-Safe (extensions fuel) t n (drop 4 p) g (drop-Within input 4 p w)
              (λ r m v. extensions-Safe fuel r (omega (arith, length-drop 4 p)) v))))))

  extension_block-Safe : (p : Bytes) → Within input p → Safe input (extension_block p)
  unfolding extension_block
  extension_block-Safe p w = guard-Safe input (length p) 2 _ (λ h.
      word-Safe input 0 p _ (omega arith) (λ n.
        from-Safe input 2 p
          (λ q.
            if ltb (length q) n
            then absent
            else step (upto n q) (λ e. extensions (suc (length e)) e))
          h
          (guard-Safe input (length (drop 2 p)) n
            (step (upto n (drop 2 p)) (λ e. extensions (suc (length e)) e))
            (λ g.
              upto-Safe input n (drop 2 p) (λ e. extensions (suc (length e)) e) g
                (extensions-Safe (suc (length (take n (drop 2 p)))) (take n (drop 2 p))
                  (omega arith) (take-Within input n (drop 2 p) (drop-Within input 2 p w)))))))

  client_hello-Safe : (p : Bytes) → Within input p → Safe input (client_hello p)
  unfolding client_hello
  client_hello-Safe p w = guard-Safe input (length p) 34 _ (λ h. from-Safe input 34 p _ h (
      skip8-Safe input (drop 34 p) _ (drop-Within input 34 p w) (λ b v.
        skip16-Safe input b _ v (λ c u. skip8-Safe input c _ u (λ d x. extension_block-Safe d x)))))

  handshake-Safe : (hs : Bytes) → 4 ≤ length hs → Within input hs → Safe input (handshake hs)
  unfolding handshake
  handshake-Safe hs l w = at-Safe input 0 hs _ (omega arith) (λ m.
      if-Safe input (not (m == 1)) _ _ (absent-Safe input)
        (from-Safe input 4 hs _ l (client_hello-Safe (drop 4 hs) (drop-Within input 4 hs w))))

  record_body-Safe :
      (rec : ℕ) (hs : Bytes)
      → Within input hs
      → Safe input
          (if ltb (length hs) rec || ltb rec 4 then absent else step (upto rec hs) handshake)
  record_body-Safe rec hs w = elim (Bool-cases (ltb (length hs) rec)) [
    | inl e ↦ rw e (absent-Safe input)
    | inr e ↦ elim (Bool-cases (ltb rec 4)) [
      | inl f ↦ rw (e, f) (absent-Safe input)
      | inr f ↦
          let g = le_of_ltb (length hs) rec e in
          rw (e, f)
            (upto-Safe input rec hs handshake g (
              handshake-Safe (take rec hs) (omega (arith, le_of_ltb rec 4 f, length-take rec hs g))
                (take-Within input rec hs w)))
    ]
  ]

-- On every input ParseSNI ends, without an index or a slice out of range, and gives no host or one that
-- stands in the input.
pub parse_sni-Safe : (b : Bytes) → Safe b (parse_sni b)
unfolding parse_sni
parse_sni-Safe b = guard-Safe b (length b) 5 _ (λ h. at-Safe b 0 b _ (omega arith) (λ kind.
    if-Safe b (not (kind == 22)) absent _ (absent-Safe b) (
      word-Safe b 3 b _ (omega arith) (λ rec.
        from-Safe b 5 b
          (λ hs. if ltb (length hs) rec || ltb rec 4 then absent else step (upto rec hs) handshake)
          h (record_body-Safe b rec (drop 5 b) (drop-Within b 5 b ([], [], append-nil b)))))))
