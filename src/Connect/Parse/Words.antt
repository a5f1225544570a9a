-- ===== src/Connect/Parse/Words.antt =====
-- strings.Fields on a line of words: what its results are like, and that they are read back.
use cc_mysub.Base.{
  ℕ, zero, suc, Bytes, ◌==◌, space_width, fields, fields_from, emit, rest_of, List, [], ◌∷◌, ◌++◌,
  append-nil, append_assoc, All, ◌≡◌, ◌≢◌, ◌⊎◌, inl, inr, refl, ap, ◌∙◌, arith, Bool-cases, ==_iff,
}

-- No space character begins inside `s`, with `t` behind it.
abbrev pub FreeBefore : Bytes → Bytes → Type 0
FreeBefore [] t = Unit
FreeBefore (c ∷ s) t = (space_width (c ∷ (s ++ t)) ≡ 0) × FreeBefore s t

abbrev pub IsField : Bytes → Type 0
IsField f = (f ≢ []) × FreeBefore f (b' ' ∷ [])

blank_after :
    (c : ℕ) (s t u : Bytes) → space_width (c ∷ (s ++ t)) ≡ 0 → space_width (c ∷ (s ++ b' ' ∷ u)) ≡ 0
unfolding space_width
blank_after c [] [] [] h = ground arith
blank_after c [] [] (x ∷ u) h = ground arith
blank_after c [] (a ∷ []) [] h = ground arith
blank_after c [] (a ∷ []) (x ∷ u) h = ground arith
blank_after c [] (a ∷ b ∷ t) [] h = ground arith
blank_after c [] (a ∷ b ∷ t) (x ∷ u) h = ground arith
blank_after c (d ∷ []) [] u h = ground arith
blank_after c (d ∷ []) (a ∷ t) u h = ground arith
blank_after c (d ∷ e ∷ s) t u h = h

pub FreeBefore-blank : (s t u : Bytes) → FreeBefore s t → FreeBefore s (b' ' ∷ u)
FreeBefore-blank [] t u h = tt
FreeBefore-blank (c ∷ s) t u h = (blank_after c s t u h.0, FreeBefore-blank s t u h.1)

FreeBefore-snoc :
    (s : Bytes) (c : ℕ) (t : Bytes)
    → FreeBefore s (c ∷ t)
    → space_width (c ∷ t) ≡ 0
    → FreeBefore (s ++ c ∷ []) t
FreeBefore-snoc [] c t h w = (w, tt)
FreeBefore-snoc (x ∷ s) c t h w = (rw (append_assoc s (c ∷ []) t) h.0, FreeBefore-snoc s c t h.1 w)

emit-IsField :
    (cur t : Bytes) (fs : List Bytes)
    → FreeBefore cur t
    → All IsField fs
    → All IsField (emit cur fs)
emit-IsField [] t fs h k = k
emit-IsField (c ∷ cur) t fs h k = (((λ e. cc), FreeBefore-blank (c ∷ cur) t [] h), k)

-- A field that is being read has no bytes of a space left to skip.
fields_from-IsField :
    (skip : ℕ) (cur s : Bytes)
    → (skip ≡ 0) ⊎ (cur ≡ [])
    → FreeBefore cur s
    → All IsField (fields_from skip cur s)
unfolding fields_from
fields_from-IsField zero cur [] a h = emit-IsField cur [] [] h tt
fields_from-IsField (suc skip) cur [] a h = emit-IsField cur [] [] h tt
fields_from-IsField (suc skip) [] (c ∷ s) a h = fields_from-IsField skip [] s (inr refl) tt
fields_from-IsField (suc skip) (x ∷ cur) (c ∷ s) a h = absurd (ground arith)
fields_from-IsField zero cur (c ∷ s) a h = elim (Bool-cases (space_width (c ∷ s) == 0)) [
  | inl z ↦ rw z (
      fields_from-IsField 0 (cur ++ c ∷ []) s (inl refl)
        (FreeBefore-snoc cur c s h ((==_iff _ 0).0 z)))
  | inr z ↦ rw z (
      emit-IsField cur (c ∷ s) _ h
        (fields_from-IsField (rest_of (space_width (c ∷ s))) [] s (inr refl) tt))
]

-- The fields of a line are not empty and hold no space character.
pub fields-IsField : (s : Bytes) → All IsField (fields s)
unfolding fields
fields-IsField s = fields_from-IsField 0 [] s (inl refl) tt

fields_from_step :
    (cur : Bytes) (c : ℕ) (s : Bytes)
    → space_width (c ∷ s) ≡ 0
    → fields_from 0 cur (c ∷ s) ≡ fields_from 0 (cur ++ c ∷ []) s
unfolding fields_from
fields_from_step cur c s h = rw h

-- A word is read byte by byte.
fields_from-word :
    (f cur : Bytes) (c : ℕ) (u : Bytes)
    → FreeBefore f (c ∷ u)
    → fields_from 0 cur (f ++ c ∷ u) ≡ fields_from 0 (cur ++ f) (c ∷ u)
fields_from-word [] cur c u h = rw append-nil
fields_from-word (x ∷ f) cur c u h =
    fields_from_step cur x (f ++ c ∷ u) h.0
    ∙ fields_from-word f (cur ++ x ∷ []) c u h.1
    ∙ ap (λ s. fields_from 0 s (c ∷ u)) (append_assoc cur (x ∷ []) f)

space_width_blank : (u : Bytes) → space_width (b' ' ∷ u) ≡ 1
unfolding space_width
space_width_blank [] = refl
space_width_blank (a ∷ []) = refl
space_width_blank (a ∷ b ∷ u) = refl

fields_from_blank : (f u : Bytes) → f ≢ [] → fields_from 0 f (b' ' ∷ u) ≡ f ∷ fields_from 0 [] u
unfolding fields_from
fields_from_blank [] u h = absurd (h refl)
fields_from_blank (c ∷ f) u h = rw (space_width_blank u)

-- A word and a blank in front of a line are its first field.
pub fields_word : (f u : Bytes) → IsField f → fields (f ++ b' ' ∷ u) ≡ f ∷ fields u
unfolding fields
fields_word f u h =
    fields_from-word f [] b' ' u (FreeBefore-blank f _ u h.1) ∙ fields_from_blank f u h.0
