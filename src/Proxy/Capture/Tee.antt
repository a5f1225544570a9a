-- ===== src/Proxy/Capture/Tee.antt =====
-- What the writer of internal/proxy/middleware.go passes on, and what it keeps of it.
use cc_mysub.Base.{
  ℕ, ◌+◌, ◌≤◌, ◌<◌, Bytes, true, false, ltb, Bool-cases, length, length-append, is_empty, All, List,
  [], ◌∷◌, ◌++◌, ◌≡◌, ◌⊎◌, inl, inr, refl, sym, ap, ◌∙◌, arith, append_assoc, append-nil, le_of_ltb,
  ltb→lt,
}
use cc_mysub.Http.{Header}
use cc_mysub.Proxy.Capture.{
  capture_cap, CaptureWriter, new_capture, write_header, tee, write, read_from,
}

-- The copy is the whole of what was written, or a beginning of it that is longer than the cap by
-- less than one piece.
abbrev pub IsCopy : ℕ → CaptureWriter → Type 0
IsCopy m c =
    ((c.capped ≡ false) × (c.buf ≡ c.below.body) × (length c.buf ≤ capture_cap))
    ⊎ ((c.capped ≡ true)
        × (capture_cap < length c.buf)
        × (length c.buf ≤ capture_cap + m)
        × ((rest : Bytes) × (c.buf ++ rest ≡ c.below.body)))

abbrev pub flatten : List Bytes → Bytes
flatten [] = []
flatten (p ∷ ps) = p ++ flatten ps

tee-IsCopy :
    (m : ℕ) (c : CaptureWriter) (p : Bytes) → length p ≤ m → IsCopy m c → IsCopy m (tee c p)
unfolding tee
tee-IsCopy m c p h (inl (k, e, l)) = elim (Bool-cases (ltb capture_cap (length (c.buf ++ p)))) [
  | inl b ↦
      rw (k, b)
        (inr (
          refl,
          ltb→lt capture_cap (length (c.buf ++ p)) b,
          omega (arith, length-append c.buf p),
          ([], append-nil (c.buf ++ p) ∙ ap (λ x. x ++ p) e),
        ))
  | inr b ↦
      rw (k, b) (inl (refl, ap (λ x. x ++ p) e, le_of_ltb capture_cap (length (c.buf ++ p)) b))
]
tee-IsCopy m c p h (inr (k, g, l, (rest, e))) =
    rw k (inr (refl, g, l, (rest ++ p, sym (append_assoc c.buf rest p) ∙ ap (λ x. x ++ p) e)))

write-IsCopy :
    (m : ℕ) (c : CaptureWriter) (p : Bytes) → length p ≤ m → IsCopy m c → IsCopy m (write c p)
unfolding write
write-IsCopy m c p h k = elim (Bool-cases c.wrote_hd) [
  | inl b ↦ rw b (tee-IsCopy m c p h k)
  | inr b ↦ rw b (tee-IsCopy m (write_header c 200) p h (unfold write_header in k))
]

pub write-body : (c : CaptureWriter) (p : Bytes) → (write c p).below.body ≡ c.below.body ++ p
unfolding write
write-body c p = elim (Bool-cases c.wrote_hd) [ inl b ↦ rw b refl | inr b ↦ rw b refl ]

read_from-IsCopy :
    (m : ℕ) (c : CaptureWriter) (ps : List Bytes)
    → All (λ p. length p ≤ m) ps
    → IsCopy m c
    → IsCopy m (read_from c ps)
unfolding read_from is_empty
read_from-IsCopy m c [] h k = k
read_from-IsCopy m c ([] ∷ ps) h k = read_from-IsCopy m c ps h.1 k
read_from-IsCopy m c ((x ∷ p) ∷ ps) h k =
    read_from-IsCopy m (write c (x ∷ p)) ps h.1 (write-IsCopy m c (x ∷ p) h.0 k)

read_from-body :
    (c : CaptureWriter) (ps : List Bytes) → (read_from c ps).below.body ≡ c.below.body ++ flatten ps
unfolding read_from is_empty
read_from-body c [] = sym (append-nil c.below.body)
read_from-body c ([] ∷ ps) = read_from-body c ps
read_from-body c ((x ∷ p) ∷ ps) =
    read_from-body (write c (x ∷ p)) ps
    ∙ ap (λ b. b ++ flatten ps) (write-body c (x ∷ p))
    ∙ append_assoc c.below.body (x ∷ p) (flatten ps)

-- An answer whose body comes in pieces of at most m bytes, behind any headers and status, reaches the
-- writer below whole and in order; the copy is the whole of it, of at most the cap, or a beginning of
-- it of more than the cap by at most m.
pub read_from-new_capture :
    (m : ℕ) (h : Header) (status : ℕ) (ps : List Bytes)
    → All (λ p. length p ≤ m) ps
    → ((read_from (write_header (new_capture h) status) ps).below.body ≡ flatten ps)
      × IsCopy m (read_from (write_header (new_capture h) status) ps)
unfolding write_header
read_from-new_capture m h status ps k = (
  read_from-body (write_header (new_capture h) status) ps,
  read_from-IsCopy m (write_header (new_capture h) status) ps k (inl (refl, refl, omega arith)),
)
