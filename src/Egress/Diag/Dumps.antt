-- ===== src/Egress/Diag/Dumps.antt =====
-- What the diagnosis shows of a credential, and where it writes.
use cc_mysub.Base.{
  ℕ, zero, suc, ◌+◌, ◌/◌, ◌%◌, ◌<◌, Bytes, codes, Bool, ◌&&◌, ltb, not, Bool-cases, Lacks,
  Lacks-append, is_empty, length, length-append, take, map, All, [], ◌∷◌, ◌++◌, ◌≡◌, inl, inr, refl,
  sym, ap, ◌∙◌, arith, lt→ltb,
}
use cc_mysub.Egress.Diag.{
  auth_state, ellipsis, decimal_from, decimal, padded, safe, Request, sample_of, record_hit, Diag,
  dump_name, handle,
}

take-append : (p s : Bytes) → take (length p) (p ++ s) ≡ p
take-append [] s = refl
take-append (c ∷ p) s = rw (take-append p s)

long_auth_state :
    (p : Bytes) (c : ℕ) (s : Bytes) → length p ≡ 22 → auth_state (p ++ c ∷ s) ≡ p ++ ellipsis
unfolding auth_state is_empty
long_auth_state [] c s h = absurd (omega arith)
long_auth_state (b ∷ p) c s h =
    let long = lt→ltb 22 (length (b ∷ (p ++ c ∷ s))) (omega (arith, length-append p (c ∷ s))) in
    let first : take 22 ((b ∷ p) ++ c ∷ s) ≡ b ∷ p =
      ap (λ n. take n ((b ∷ p) ++ c ∷ s)) (sym h) ∙ take-append (b ∷ p) (c ∷ s) in
    rw long (ap (λ a. a ++ ellipsis) first)

-- Two requests whose credentials are longer than 22 bytes, with the same first 22 bytes, have the same effect.
pub handle_hides :
    (dumping : Bool) (r : Request) (d : Diag) (p : Bytes) (x : ℕ) (s : Bytes) (y : ℕ) (t : Bytes)
    → length p ≡ 22
    → handle dumping (record r { authorization = p ++ x ∷ s }) d
      ≡ handle dumping (record r { authorization = p ++ y ∷ t }) d
unfolding handle record_hit sample_of
handle_hides dumping r d p x s y t h = rw (long_auth_state p x s h, long_auth_state p y t h)

digit : (n : ℕ) → n < 10 → Lacks b'/' ((b'0' + n) ∷ [])
digit n h = ground arith

decimal_from-Lacks : (fuel n : ℕ) → Lacks b'/' (decimal_from fuel n)
decimal_from-Lacks zero n = digit (n % 10) (omega arith)
decimal_from-Lacks (suc fuel) n = elim (Bool-cases (ltb n 10)) [
  | inl e ↦ rw e (digit n (ground arith))
  | inr e ↦ rw e (
      Lacks-append b'/' (decimal_from fuel (n / 10)) ((b'0' + n % 10) ∷ [])
        (decimal_from-Lacks fuel (n / 10)) (digit (n % 10) (omega arith)))
]

padded-Lacks : (n : ℕ) → Lacks b'/' (padded n)
unfolding decimal
padded-Lacks n = elim (Bool-cases (ltb n 10)) [
  | inl e ↦ rw e (decimal_from-Lacks n n)
  | inr e ↦ elim (Bool-cases (ltb n 100)) [
    | inl f ↦ rw (e, f) (decimal_from-Lacks n n)
    | inr f ↦ rw (e, f) (decimal_from-Lacks n n)
  ]
]

safe_bytes-Lacks : (s : Bytes) → Lacks b'/' (map safe s)
safe_bytes-Lacks [] = refl
safe_bytes-Lacks (c ∷ s) = ground (arith, safe_bytes-Lacks s)

dump_name-Lacks : (n : ℕ) (r : Request) → Lacks b'/' (dump_name n r)
dump_name-Lacks n r = Lacks-append b'/' (padded n) _ (padded-Lacks n) (
    Lacks-append b'/' (map safe (r.host ++ r.path)) (codes ".body")
      (safe_bytes-Lacks (r.host ++ r.path)) refl)

-- No name of a dumped file has a slash, if none had one before.
pub handle-dumps :
    (dumping : Bool) (r : Request) (d : Diag)
    → All (λ (f : Bytes × Bytes). Lacks b'/' f.0) d.dumps
    → All (λ (f : Bytes × Bytes). Lacks b'/' f.0) (handle dumping r d).dumps
unfolding handle
handle-dumps dumping r d h = elim (Bool-cases (dumping && not (is_empty r.body))) [
  | inl e ↦ rw e (dump_name-Lacks (suc d.seq) r, h)
  | inr e ↦ rw e h
]
