-- ===== src/Splitter/Relay/Copies.antt =====
-- What relay copies, and that it ends.
use mathlib.Core.Bool.{false≢true}
use cc_mysub.Base.{
  ℕ, ◌+◌, Bytes, Bool, true, false, ◌++◌, append_assoc, append-nil, [], sym, ◌≡◌, ◌≢◌, ◌⊎◌, inl,
  inr, refl, ap, ◌∙◌, arith,
}
use cc_mysub.Splitter.Relay.{
  Phase, waiting, closing_a, closing_b, joining, returned, Relay, Own, fails_ab, fails_ba,
  hears_first, closes_a, closes_b, hears_second, Step, own, reads_a, reads_b, writes_a, writes_b,
  breaks_ab, breaks_ba, finishes_ab, finishes_ba, Reachable, start, step,
}

abbrev pub bit : Bool → ℕ
bit true = 1
bit false = 0

-- How many values the caller has taken from the channel.
abbrev pub heard : Phase → ℕ
heard waiting = 0
heard returned = 2
heard _ = 1

abbrev pub opens_a : Phase → Bool
opens_a waiting = true
opens_a closing_a = true
opens_a _ = false

abbrev pub opens_b : Phase → Bool
opens_b waiting = true
opens_b closing_a = true
opens_b closing_b = true
opens_b _ = false

-- Every goroutine that has ended has sent one value, and the caller's place says which connections are
-- open.
abbrev pub Counted : Relay → Type 0
Counted s =
    (s.done + heard s.phase + bit s.copies_ab + bit s.copies_ba ≡ 2)
    × (s.a_open ≡ opens_a s.phase)
    × (s.b_open ≡ opens_b s.phase)

-- What was written to each connection, the chunk on its way and what is left to read are what the
-- other side sends.
abbrev pub Ordered : Bytes → Bytes → Relay → Type 0
Ordered a b s = (s.to_b ++ (s.chunk_ab ++ s.from_a) ≡ a) × (s.to_a ++ (s.chunk_ba ++ s.from_b) ≡ b)

-- A copy that came to the end of its input has written all of it, and has ended.
abbrev pub Delivers : Bool → Bool → Bytes → Bytes → Type 0
Delivers eof copies written sent = (eof ≡ false) ⊎ ((copies ≡ false) × (written ≡ sent))

abbrev pub Delivered : Bytes → Bytes → Relay → Type 0
Delivered a b s = Delivers s.eof_ab s.copies_ab s.to_b a × Delivers s.eof_ba s.copies_ba s.to_a b

pub Own-Counted : (s t : Relay) → Counted s → Own s t → Counted t
Own-Counted s _ (c, o, p) (fails_ab e f g) = let k = ap bit e in (omega arith, o, p)
Own-Counted s _ (c, o, p) (fails_ba e f g) = let k = ap bit e in (omega arith, o, p)
Own-Counted s _ (c, o, p) (hears_first e f) =
    let k = ap heard e in (omega arith, o ∙ ap opens_a e, p ∙ ap opens_b e)
Own-Counted s _ (c, o, p) (closes_a e) = let k = ap heard e in (omega arith, refl, p ∙ ap opens_b e)
Own-Counted s _ (c, o, p) (closes_b e) = let k = ap heard e in (omega arith, o ∙ ap opens_a e, refl)
Own-Counted s _ (c, o, p) (hears_second e f) =
    let k = ap heard e in (omega arith, o ∙ ap opens_a e, p ∙ ap opens_b e)

Step-Counted : (s t : Relay) → Counted s → Step s t → Counted t
Step-Counted s t v (own _ o) = Own-Counted s t v o
Step-Counted s _ v (reads_a chunk rest e f g) = v
Step-Counted s _ v (reads_b chunk rest e f g) = v
Step-Counted s _ v (writes_b e f) = v
Step-Counted s _ v (writes_a e f) = v
Step-Counted s _ (c, o, p) (breaks_ab part lost e f g) = let k = ap bit e in (omega arith, o, p)
Step-Counted s _ (c, o, p) (breaks_ba part lost e f g) = let k = ap bit e in (omega arith, o, p)
Step-Counted s _ (c, o, p) (finishes_ab e f g) = let k = ap bit e in (omega arith, o, p)
Step-Counted s _ (c, o, p) (finishes_ba e f g) = let k = ap bit e in (omega arith, o, p)

Own-Ordered : (a b : Bytes) (s t : Relay) → Ordered a b s → Own s t → Ordered a b t
Own-Ordered a b s _ v (fails_ab e f g) = v
Own-Ordered a b s _ v (fails_ba e f g) = v
Own-Ordered a b s _ v (hears_first e f) = v
Own-Ordered a b s _ v (closes_a e) = v
Own-Ordered a b s _ v (closes_b e) = v
Own-Ordered a b s _ v (hears_second e f) = v

-- A chunk is read from what is left, and a part of it written.
read_chunk :
    (to chunk from part rest sent : Bytes)
    → to ++ (chunk ++ from) ≡ sent
    → chunk ≡ []
    → from ≡ part ++ rest
    → to ++ (part ++ rest) ≡ sent
read_chunk to chunk from part rest sent v e f =
    sym (ap (λ x. to ++ x) (ap (λ c. c ++ from) e ∙ f)) ∙ v

write_part :
    (to chunk from part lost sent : Bytes)
    → to ++ (chunk ++ from) ≡ sent
    → chunk ≡ part ++ lost
    → (to ++ part) ++ (lost ++ from) ≡ sent
write_part to chunk from part lost sent v e =
    append_assoc to part (lost ++ from)
    ∙ sym (ap (λ x. to ++ x) (ap (λ c. c ++ from) e ∙ append_assoc part lost from))
    ∙ v

Step-Ordered : (a b : Bytes) (s t : Relay) → Ordered a b s → Step s t → Ordered a b t
Step-Ordered a b s t v (own _ o) = Own-Ordered a b s t v o
Step-Ordered a b s _ (x, y) (reads_a chunk rest e f g) =
    (read_chunk s.to_b s.chunk_ab s.from_a chunk rest a x f g, y)
Step-Ordered a b s _ (x, y) (reads_b chunk rest e f g) =
    (x, read_chunk s.to_a s.chunk_ba s.from_b chunk rest b y f g)
Step-Ordered a b s _ (x, y) (writes_b e f) =
    (write_part s.to_b s.chunk_ab s.from_a s.chunk_ab [] a x (sym (append-nil s.chunk_ab)), y)
Step-Ordered a b s _ (x, y) (writes_a e f) =
    (x, write_part s.to_a s.chunk_ba s.from_b s.chunk_ba [] b y (sym (append-nil s.chunk_ba)))
Step-Ordered a b s _ (x, y) (breaks_ab part lost e f g) =
    (write_part s.to_b s.chunk_ab s.from_a part lost a x g, y)
Step-Ordered a b s _ (x, y) (breaks_ba part lost e f g) =
    (x, write_part s.to_a s.chunk_ba s.from_b part lost b y g)
Step-Ordered a b s _ v (finishes_ab e f g) = v
Step-Ordered a b s _ v (finishes_ba e f g) = v

all_written :
    (to chunk from sent : Bytes) → to ++ (chunk ++ from) ≡ sent → chunk ≡ [] → from ≡ [] → to ≡ sent
all_written to chunk from sent v e f =
    sym (append-nil to) ∙ sym (ap (λ x. to ++ x) (ap (λ c. c ++ from) e ∙ f)) ∙ v

-- A copy that goes on has not come to the end of its input.
going :
    (eof copies : Bool) (to sent : Bytes)
    → copies ≡ true
    → Delivers eof copies to sent
    → eof ≡ false
going eof copies to sent e (inl f) = f
going eof copies to sent e (inr (f, g)) = absurd (false≢true (sym f ∙ e))

Own-Delivered : (a b : Bytes) (s t : Relay) → Delivered a b s → Own s t → Delivered a b t
Own-Delivered a b s _ (x, y) (fails_ab e f g) = (inl (going _ _ s.to_b a e x), y)
Own-Delivered a b s _ (x, y) (fails_ba e f g) = (x, inl (going _ _ s.to_a b e y))
Own-Delivered a b s _ v (hears_first e f) = v
Own-Delivered a b s _ v (closes_a e) = v
Own-Delivered a b s _ v (closes_b e) = v
Own-Delivered a b s _ v (hears_second e f) = v

Step-Delivered :
    (a b : Bytes) (s t : Relay) → Ordered a b s → Delivered a b s → Step s t → Delivered a b t
Step-Delivered a b s t o v (own _ w) = Own-Delivered a b s t v w
Step-Delivered a b s _ o v (reads_a chunk rest e f g) = v
Step-Delivered a b s _ o v (reads_b chunk rest e f g) = v
Step-Delivered a b s _ o (x, y) (writes_b e f) = (inl (going _ _ s.to_b a e x), y)
Step-Delivered a b s _ o (x, y) (writes_a e f) = (x, inl (going _ _ s.to_a b e y))
Step-Delivered a b s _ o (x, y) (breaks_ab part lost e f g) = (inl (going _ _ s.to_b a e x), y)
Step-Delivered a b s _ o (x, y) (breaks_ba part lost e f g) = (x, inl (going _ _ s.to_a b e y))
Step-Delivered a b s _ (p, q) (x, y) (finishes_ab e f g) =
    (inr (refl, all_written s.to_b s.chunk_ab s.from_a a p f g), y)
Step-Delivered a b s _ (p, q) (x, y) (finishes_ba e f g) =
    (x, inr (refl, all_written s.to_a s.chunk_ba s.from_b b q f g))

pub Reachable-Counted : (a b : Bytes) (s : Relay) → Reachable a b s → Counted s
Reachable-Counted a b _ start = (refl, refl, refl)
Reachable-Counted a b t (step s _ r st) = Step-Counted s t (Reachable-Counted a b s r) st

Reachable-Ordered : (a b : Bytes) (s : Relay) → Reachable a b s → Ordered a b s
Reachable-Ordered a b _ start = (refl, refl)
Reachable-Ordered a b t (step s _ r st) = Step-Ordered a b s t (Reachable-Ordered a b s r) st

Reachable-Delivered : (a b : Bytes) (s : Relay) → Reachable a b s → Delivered a b s
Reachable-Delivered a b _ start = (inl refl, inl refl)
Reachable-Delivered a b t (step s _ r st) =
    Step-Delivered a b s t (Reachable-Ordered a b s r) (Reachable-Delivered a b s r) st

Phase-cases : (p : Phase) → (p ≡ returned) ⊎ (p ≢ returned)
Phase-cases returned = inl refl
Phase-cases waiting = inr (λ h. cc)
Phase-cases closing_a = inr (λ h. cc)
Phase-cases closing_b = inr (λ h. cc)
Phase-cases joining = inr (λ h. cc)

bit-zero : (b : Bool) → bit b ≡ 0 → b ≡ false
bit-zero false h = refl
bit-zero true h = cc

-- At every point of relay, what was written to each connection, then the chunk that its copy has read
-- and not written (lost if the copy has failed), then what is left to read, is exactly what the other
-- side sends; a copy that came to the end of its input has written all of it; and relay has not
-- returned, or both goroutines have ended, both connections are closed and the channel is empty.
pub relay_complete :
    (a b : Bytes) (s : Relay)
    → Reachable a b s
    → (s.to_b ++ (s.chunk_ab ++ s.from_a) ≡ a)
      × (s.to_a ++ (s.chunk_ba ++ s.from_b) ≡ b)
      × ((s.eof_ab ≡ false) ⊎ (s.to_b ≡ a))
      × ((s.eof_ba ≡ false) ⊎ (s.to_a ≡ b))
      × ((s.phase ≢ returned)
          ⊎ ((s.copies_ab ≡ false)
              × (s.copies_ba ≡ false)
              × (s.a_open ≡ false)
              × (s.b_open ≡ false)
              × (s.done ≡ 0)))
relay_complete a b s r =
    let (x, y) = Reachable-Ordered a b s r in
    let (u, v) = Reachable-Delivered a b s r in
    let (c, o, p) = Reachable-Counted a b s r in
    (
      x,
      y,
      elim u [ inl e ↦ inl e | inr (e, f) ↦ inr f ],
      elim v [ inl e ↦ inl e | inr (e, f) ↦ inr f ],
      elim (Phase-cases s.phase) [
        | inr n ↦ inl n
        | inl e ↦
            let k = ap heard e in
            inr (
              bit-zero s.copies_ab (omega arith),
              bit-zero s.copies_ba (omega arith),
              o ∙ ap opens_a e,
              p ∙ ap opens_b e,
              omega arith,
            )
      ],
    )
