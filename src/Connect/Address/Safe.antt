-- ===== src/Connect/Address/Safe.antt =====
-- Which bytes a host that ValidHost accepts can hold.
use mathlib.Core.Bool.{false≢true}
use cc_mysub.Base.{
  ℕ, zero, suc, ◌+◌, ◌-◌, ◌*◌, ◌≤◌, Bytes, Bool, true, false, ◌||◌, ◌==◌, is_empty, is_empty-true,
  all_bytes, length, Option, none, some, [], ◌∷◌, ◌≡◌, ◌≢◌, refl, arith, Bool-cases, inl, inr,
  nonempty,
}
use cc_mysub.Connect.Address.{
  ipv4_fields, hex_group, ipv6_end, ipv6_colon, ipv6_next, ipv6_group, ipv6_loop, ipv6_start, ipv6,
  ip_scan, host_char, valid_host,
}

-- Letters, digits, '-', '.' and ':'.
abbrev pub safe_char : ℕ → Bool
safe_char c = host_char c || c == b':'

abbrev pub Safe : Bytes → Type 0
Safe s = all_bytes safe_char s ≡ true

ipv4_fields-Safe :
    (val digits place : ℕ) (s : Bytes) → ipv4_fields val digits place s ≡ true → Safe s
unfolding ipv4_fields
ipv4_fields-Safe val digits place [] h = refl
ipv4_fields-Safe val digits place (c ∷ s) h = ground (
  arith,
  ipv4_fields-Safe (val * 10 + (c - b'0')) (digits + 1) place s,
  ipv4_fields-Safe 0 0 (place + 1) s,
)

hex_group-Safe : (off n : ℕ) (s r : Bytes) → hex_group off s ≡ some (n, r) → Safe r → Safe s
unfolding hex_group
hex_group-Safe off n [] r h k = refl
hex_group-Safe off n (c ∷ s) r h k = ground (arith, hex_group-Safe (off + 1) n s r)

ipv6_end-empty : (i : ℕ) (e : Bool) (s : Bytes) → ipv6_end i e s ≡ true → Safe s
unfolding ipv6_end is_empty
ipv6_end-empty i e [] h = refl
ipv6_end-empty i e (c ∷ s) h = cc

module _ (again : Bool → Bytes → Bool)
    (again-Safe : (e : Bool) (t : Bytes) → again e t ≡ true → Safe t) where
  ipv6_colon-Safe : (i : ℕ) (e : Bool) (s : Bytes) → ipv6_colon again i e s ≡ true → Safe s
  unfolding ipv6_colon
  ipv6_colon-Safe i e [] h = refl
  ipv6_colon-Safe i e (d ∷ r) h =
      ground (arith, again-Safe true r, again-Safe e (d ∷ r), is_empty-true r)

  ipv6_next-Safe :
      (i : ℕ) (e : Bool) (s r : Bytes) → (Safe r → Safe s) → ipv6_next again i e s r ≡ true → Safe s
  unfolding ipv6_next
  ipv6_next-Safe i e s [] k h = k refl
  ipv6_next-Safe i e s (c ∷ r) k h = ground (arith, ipv4_fields-Safe 0 0 0 s, ipv6_colon-Safe i e r)

  ipv6_group-Safe :
      (i : ℕ) (e : Bool) (s : Bytes) (o : Option (ℕ × Bytes))
      → hex_group 0 s ≡ o
      → ipv6_group again i e s o ≡ true
      → Safe s
  unfolding ipv6_group
  ipv6_group-Safe i e s none g h = cc
  ipv6_group-Safe i e s (some (n, r)) g h = elim (Bool-cases (n == 0)) [
    | inl z ↦ absurd (false≢true (rw z at h))
    | inr z ↦ ipv6_next-Safe i e s r (hex_group-Safe 0 n s r g) (rw z at h)
  ]

ipv6_loop-Safe : (left i : ℕ) (e : Bool) (s : Bytes) → ipv6_loop left i e s ≡ true → Safe s
unfolding ipv6_loop
ipv6_loop-Safe zero i e s h = ipv6_end-empty i e s h
ipv6_loop-Safe (suc left) i e s h =
    ipv6_group-Safe (ipv6_loop left (i + 2)) (ipv6_loop-Safe left (i + 2)) i e s (hex_group 0 s)
      refl h

ipv6_start-Safe : (s : Bytes) → ipv6_start s ≡ true → Safe s
unfolding ipv6_start
ipv6_start-Safe [] h = refl
ipv6_start-Safe (a ∷ []) h = ipv6_loop-Safe 8 0 false (a ∷ []) h
ipv6_start-Safe (a ∷ b ∷ s) h =
    ground (arith, ipv6_loop-Safe 8 0 true s, ipv6_loop-Safe 8 0 false (a ∷ b ∷ s), is_empty-true s)

ip_scan-Safe : (whole s : Bytes) → ip_scan whole s ≡ true → Safe whole
unfolding ip_scan ipv6
ip_scan-Safe whole [] h = cc
ip_scan-Safe whole (c ∷ s) h =
    ground (arith, ipv4_fields-Safe 0 0 0 whole, ipv6_start-Safe whole, ip_scan-Safe whole s)

host_char-Safe : (s : Bytes) → all_bytes host_char s ≡ true → Safe s
host_char-Safe [] h = refl
host_char-Safe (c ∷ s) h = ground (arith, host_char-Safe s)

-- A host that ValidHost accepts is not empty, has at most 253 bytes, and has no bytes but letters,
-- digits, '-', '.' and ':'.
pub valid_host-Safe : (h : Bytes) → valid_host h ≡ true → (h ≢ []) × (length h ≤ 253) × Safe h
unfolding valid_host
valid_host-Safe h v = elim (Bool-cases (is_empty h)) [
  | inl a ↦ absurd (ground arith)
  | inr a ↦ (nonempty h a, ground arith, ground (arith, ip_scan-Safe h h, host_char-Safe h))
]
