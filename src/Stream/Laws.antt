-- ===== src/Stream/Laws.antt =====
-- The reader consumes its stream from the front, and the sets of hosts hold what was put in.
use mathlib.Core.Bool.{false≢true}
use cc_mysub.Base.{
  ℕ, suc, ◌+◌, Bytes, Bool, true, false, not, ◌==◌, equal, equal_iff, length, Dict, insert,
  lookup-insert, Elem, codes, All, List, [], ◌∷◌, ◌++◌, append_assoc, append-nil, none, some,
  Option-cases, Bool-cases, and-true, all_bytes, ◌≡◌, ◌↔◌, ◌⊎◌, inl, inr, refl, sym, ◌∙◌, arith,
  if◌then◌else◌,
}
use cc_mysub.Stream.{newline, read_line, prepend, is_blank_line, drain_headers, set_of, has}

-- No newline.
abbrev pub one_line : Bytes → Bool
one_line = all_bytes (λ c. not (c == newline))

pub read_line-split : (s line rest : Bytes) → read_line s ≡ some (line, rest) → s ≡ line ++ rest
unfolding read_line
read_line-split [] line rest h = cc
read_line-split (c ∷ s) line rest h = elim (Bool-cases (c == newline)) [
  | inl e ↦ cc (rw e at h)
  | inr e ↦ elim (Option-cases (read_line s)) [
    | inl f ↦ cc (rw (e, f, prepend) at h)
    | inr ((l, r), f) ↦ cc (read_line-split s l r f, rw (e, f, prepend) at h)
  ]
]

pub read_line-append :
    (s rest : Bytes)
    → one_line s ≡ true
    → read_line (s ++ newline ∷ rest) ≡ some (s ++ newline ∷ [], rest)
unfolding read_line
read_line-append [] rest h = refl
read_line-append (c ∷ s) rest h = ground (arith, read_line-append s rest)

-- Header lines, each behind a newline.
abbrev pub header_block : List Bytes → Bytes → Bytes
header_block [] rest = rest
header_block (h ∷ hs) rest = h ++ newline ∷ header_block hs rest

has-insert :
    (m : Dict Bool) (k h : Bytes) → has (insert k true m) h ≡ (if equal k h then true else has m h)
unfolding has
has-insert m k h = ground (arith, lookup-insert k h true m)

has-nil : (h : Bytes) → has [] h ≡ false
unfolding has
has-nil h = refl

has-insert-inv :
    (m : Dict Bool) (k h : Bytes) → has (insert k true m) h ≡ true → (h ≡ k) ⊎ (has m h ≡ true)
has-insert-inv m k h e = elim (Bool-cases (equal k h)) [
  | inl same ↦ inl (sym ((equal_iff k h).0 same))
  | inr other ↦ inr (ground (arith, has-insert m k h))
]

first_or_later : {h k : Bytes} {P : Type 0} (hs : List Bytes) → (h ≡ k) ⊎ P → Elem h (k ∷ hs) ⊎ P
first_or_later hs (inl e) = inl (inl e)
first_or_later hs (inr p) = inr p

pub set_of-has :
    (hs : List Bytes) (m : Dict Bool) (h : Bytes)
    → (has (set_of hs m) h ≡ true) ↔ (Elem h hs ⊎ (has m h ≡ true))
unfolding set_of
set_of-has [] m h = ((λ e. inr e), λ e. elim e [ inl x ↦ absurd x | inr y ↦ y ])
set_of-has (k ∷ hs) m h =
    let ih = set_of-has hs (insert k true m) h in
    (
      λ e. elim (ih.0 e) [
        | inl x ↦ inl (inr x)
        | inr y ↦ first_or_later hs (has-insert-inv m k h y)
      ],
      λ e. ih.1 (elim e [
        | inl (inl x) ↦ inr (rw (has-insert m k h, (equal_iff k h).1 (sym x)))
        | inl (inr x) ↦ inl x
        | inr y ↦ inr (ground (arith, has-insert m k h))
      ]),
    )

-- The set that is built of a list of hosts has exactly the hosts of the list.
pub set_of_iff : (hs : List Bytes) (h : Bytes) → (has (set_of hs []) h ≡ true) ↔ Elem h hs
set_of_iff hs h =
    let (a, b) = set_of-has hs [] h in
    (
      λ e. elim (a e) [ inl x ↦ x | inr y ↦ absurd (false≢true (sym (has-nil h) ∙ y)) ],
      λ x. b (inl x),
    )

pub drain_headers-line :
    (h cur s : Bytes)
    → one_line h ≡ true
    → drain_headers cur (h ++ newline ∷ s)
      ≡ (if is_blank_line (cur ++ h) then some s else drain_headers [] s)
unfolding drain_headers
drain_headers-line [] cur s o = rw append-nil
drain_headers-line (c ∷ h) cur s o =
    let (a, b) = and-true (not (c == newline)) (one_line h) o in
    let e : (c == newline) ≡ false = ground arith in
    rw e (rw (drain_headers-line h (cur ++ c ∷ []) s b, append_assoc cur (c ∷ []) h))

pub read_line-none : (s : Bytes) → one_line s ≡ true → read_line s ≡ none
unfolding read_line
read_line-none [] h = refl
read_line-none (c ∷ s) h = ground (arith, read_line-none s)

-- A header line is not blank and holds no newline.
abbrev pub IsHeader : Bytes → Type 0
IsHeader h = (one_line h ≡ true) × (is_blank_line h ≡ false)

-- Their bytes, the newlines included.
abbrev pub block_size : List Bytes → ℕ
block_size [] = 0
block_size (h ∷ hs) = suc (length h) + block_size hs

abbrev pub carriage_return : Bytes
carriage_return = codes "\r"

pub drain_headers-block :
    (hs : List Bytes) (rest : Bytes)
    → All IsHeader hs
    → drain_headers [] (header_block hs (carriage_return ++ newline ∷ rest)) ≡ some rest
drain_headers-block [] rest h = drain_headers-line carriage_return [] rest refl ∙ blank rest
  where
    blank :
        (rest : Bytes)
        → (if is_blank_line carriage_return then some rest else drain_headers [] rest) ≡ some rest
    blank rest = unfold drain_headers in refl
drain_headers-block (x ∷ hs) rest h =
    drain_headers-line x [] (header_block hs (carriage_return ++ newline ∷ rest)) h.0.0
    ∙ rw h.0.1 (drain_headers-block hs rest h.1)
