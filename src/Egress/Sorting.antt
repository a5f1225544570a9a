-- ===== src/Egress/Sorting.antt =====
-- Go's order of strings, byte by byte, and sort.Strings.
pub mod Laws
use cc_mysub.Base.{
  ℕ, Bytes, Bool, true, false, ltb, ◌==◌, ==_iff, Bool-cases, All, Elem, All_elem, List, [], ◌∷◌,
  ◌≡◌, ◌≢◌, ◌⊎◌, ◌↔◌, inl, inr, refl, sym, ap, ◌∙◌, arith, if◌then◌else◌,
}

-- a <= b
unfoldable pub at_most : Bytes → Bytes → Bool
at_most [] t = true
at_most (x ∷ s) [] = false
at_most (x ∷ s) (y ∷ t) = if ltb x y then true else if x == y then at_most s t else false

pub at_most_refl : (s : Bytes) → at_most s s ≡ true
unfolding at_most
at_most_refl [] = refl
at_most_refl (x ∷ s) = ground (arith, at_most_refl s)

pub at_most_trans : (s t u : Bytes) → at_most s t ≡ true → at_most t u ≡ true → at_most s u ≡ true
unfolding at_most
at_most_trans [] t u h k = refl
at_most_trans (x ∷ s) [] u h k = cc
at_most_trans (x ∷ s) (y ∷ t) [] h k = cc
at_most_trans (x ∷ s) (y ∷ t) (z ∷ u) h k = ground (arith, at_most_trans s t u)

pub at_most_antisymm : (s t : Bytes) → at_most s t ≡ true → at_most t s ≡ true → s ≡ t
unfolding at_most
at_most_antisymm [] [] h k = refl
at_most_antisymm [] (y ∷ t) h k = cc
at_most_antisymm (x ∷ s) [] h k = cc
at_most_antisymm (x ∷ s) (y ∷ t) h k = ground (arith, at_most_antisymm s t)

pub at_most_total : (s t : Bytes) → at_most s t ≡ false → at_most t s ≡ true
unfolding at_most
at_most_total [] t h = cc
at_most_total (x ∷ s) [] h = refl
at_most_total (x ∷ s) (y ∷ t) h = ground (arith, at_most_total s t)

insert_sorted : Bytes → List Bytes → List Bytes
insert_sorted a [] = a ∷ []
insert_sorted a (b ∷ bs) =
    let rest = insert_sorted a bs in if at_most a b then a ∷ b ∷ bs else b ∷ rest

-- sort.Strings
unfoldable pub sort : List Bytes → List Bytes
unfolding insert_sorted at_most
sort [] = []
sort (a ∷ as') = insert_sorted a (sort as')

abbrev pub IsSorted : List Bytes → Type 0
IsSorted [] = Unit
IsSorted (a ∷ as') = All (λ b. at_most a b ≡ true) as' × IsSorted as'

-- Sorted, with no two alike.
abbrev pub IsIncreasing : List Bytes → Type 0
IsIncreasing [] = Unit
IsIncreasing (a ∷ as') = All (λ b. (at_most a b ≡ true) × (a ≢ b)) as' × IsIncreasing as'
