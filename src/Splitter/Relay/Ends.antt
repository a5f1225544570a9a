-- ===== src/Splitter/Relay/Ends.antt =====
-- relay comes to its end by itself once one direction has ended.
use cc_mysub.Base.{
  ℕ, suc, ◌+◌, ◌-◌, ◌≤◌, Bytes, Bool, true, false, Bool-cases, ◌&&◌, ◌≡◌, ◌⊎◌, inl, inr, refl, ap,
  ◌∙◌, arith,
}
use cc_mysub.Splitter.Relay.{
  Phase, waiting, closing_a, closing_b, joining, returned, Relay, end_ab, end_ba, Own, fails_ab,
  fails_ba, hears_first, closes_a, closes_b, hears_second, Reachable,
}
use cc_mysub.Splitter.Relay.Copies.{
  bit, heard, opens_a, opens_b, Counted, Own-Counted, Reachable-Counted,
}

abbrev places_left : Phase → ℕ
places_left waiting = 4
places_left closing_a = 3
places_left closing_b = 2
places_left joining = 1
places_left returned = 0

-- The steps of the code's own that are left: one for each goroutine and one for each place.
abbrev pub own_left : Relay → ℕ
own_left s = bit s.copies_ab + bit s.copies_ba + places_left s.phase

pub data OwnRun (s : Relay) : ℕ → Relay → Type 0 where
  here : OwnRun s 0 s
  next : (k : ℕ) (t u : Relay) → OwnRun s k t → Own t u → OwnRun s (suc k) u

Own-left : (s t : Relay) → Own s t → suc (own_left t) ≡ own_left s
Own-left s _ (fails_ab e f g) = let k = ap bit e in omega arith
Own-left s _ (fails_ba e f g) = let k = ap bit e in omega arith
Own-left s _ (hears_first e f) = let k = ap places_left e in omega arith
Own-left s _ (closes_a e) = let k = ap places_left e in omega arith
Own-left s _ (closes_b e) = let k = ap places_left e in omega arith
Own-left s _ (hears_second e f) = let k = ap places_left e in omega arith

-- A goroutine that has ended stays so.
Own-copies :
    (s t : Relay) → Own s t → bit t.copies_ab + bit t.copies_ba ≤ bit s.copies_ab + bit s.copies_ba
Own-copies s _ (fails_ab e f g) = omega arith
Own-copies s _ (fails_ba e f g) = omega arith
Own-copies s _ (hears_first e f) = omega arith
Own-copies s _ (closes_a e) = omega arith
Own-copies s _ (closes_b e) = omega arith
Own-copies s _ (hears_second e f) = omega arith

OwnRun-left :
    (s : Relay) (k : ℕ) (t : Relay)
    → Counted s
    → OwnRun s k t
    → Counted t
      × (k + own_left t ≡ own_left s)
      × (bit t.copies_ab + bit t.copies_ba ≤ bit s.copies_ab + bit s.copies_ba)
OwnRun-left s _ _ v here = (v, omega arith, omega arith)
OwnRun-left s _ u v (next k t _ r o) =
    let (w, e, h) = OwnRun-left s k t v r in
    let d = Own-left t u o in
    let g = Own-copies t u o in (Own-Counted t u w o, omega arith, omega arith)

-- Where one copy has ended, relay waits for no peer.
Own-progress :
    (s : Relay)
    → Counted s
    → bit s.copies_ab + bit s.copies_ba ≤ 1
    → (s.phase ≡ returned) ⊎ ((t : Relay) × Own s t)
Own-progress s (c, o, p) h = at_phase s.phase refl
  where
    joins :
        s.phase ≡ joining
        → s.a_open ≡ false
        → s.b_open ≡ false
        → (s.phase ≡ returned) ⊎ ((t : Relay) × Own s t)
    joins e f g = elim (Bool-cases s.copies_ab) [
      | inl x ↦ inr (end_ab s, fails_ab x f g)
      | inr x ↦ elim (Bool-cases s.copies_ba) [
        | inl y ↦ inr (end_ba s, fails_ba y f g)
        | inr y ↦
            let k = ap heard e in
            let i = ap bit x in
            let j = ap bit y in
            inr (record s { done = s.done - 1; phase = returned }, hears_second e (omega arith))
      ]
    ]

    at_phase : (q : Phase) → s.phase ≡ q → (s.phase ≡ returned) ⊎ ((t : Relay) × Own s t)
    at_phase waiting e =
        let k = ap heard e in
        inr (record s { done = s.done - 1; phase = closing_a }, hears_first e (omega arith))
    at_phase closing_a e = inr (record s { a_open = false; phase = closing_b }, closes_a e)
    at_phase closing_b e = inr (record s { b_open = false; phase = joining }, closes_b e)
    at_phase joining e = joins e (o ∙ ap opens_a e) (p ∙ ap opens_b e)
    at_phase returned e = inl e

bits-le : (x y : Bool) → x && y ≡ false → bit x + bit y ≤ 1
bits-le true true h = cc
bits-le true false h = omega arith
bits-le false true h = omega arith
bits-le false false h = omega arith

-- Once one direction of relay has ended, the steps that wait for no peer lead to its return: each takes
-- one from own_left, which is at most 5 there, and after any number of them relay has returned or can
-- take another.
pub relay_ends :
    (a b : Bytes) (s : Relay) (k : ℕ) (t : Relay)
    → Reachable a b s
    → s.copies_ab && s.copies_ba ≡ false
    → OwnRun s k t
    → (k + own_left t ≡ own_left s)
      × (own_left s ≤ 5)
      × ((t.phase ≡ returned) ⊎ ((u : Relay) × Own t u))
relay_ends a b s k t r e run =
    let v = Reachable-Counted a b s r in
    let g = bits-le s.copies_ab s.copies_ba e in
    let (w, d, h) = OwnRun-left s k t v run in
    (d, places_bound s.phase, Own-progress t w (omega arith))
  where
    places_bound : (q : Phase) → bit s.copies_ab + bit s.copies_ba + places_left q ≤ 5
    places_bound waiting = let g = bits-le s.copies_ab s.copies_ba e in omega arith
    places_bound closing_a = let g = bits-le s.copies_ab s.copies_ba e in omega arith
    places_bound closing_b = let g = bits-le s.copies_ab s.copies_ba e in omega arith
    places_bound joining = let g = bits-le s.copies_ab s.copies_ba e in omega arith
    places_bound returned = let g = bits-le s.copies_ab s.copies_ba e in omega arith
