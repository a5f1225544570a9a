-- ===== src/Egress/Keys.antt =====
-- The keys of a map, which the rig under ci/egress sorts before it prints them.
use cc_mysub.Base.{
  Bytes, false, equal, equal_iff, Bool-cases, Dict, insert, All, Elem, List, [], ◌∷◌, ◌≡◌, ◌≢◌, ◌⊎◌,
  ◌↔◌, inl, inr, subst, ◌∙◌, arith,
}
use cc_mysub.Egress.Sorting.Laws.{IsDistinct}

pub differs : (a b : Bytes) → equal a b ≡ false → a ≢ b
differs a b e k = ground (arith, equal_iff a b)

module _ {V : Type 0} where
  abbrev pub keys : Dict V → List Bytes
  keys [] = []
  keys ((k, v) ∷ m) = k ∷ keys m

  pub insert-Elem :
      (h k : Bytes) (v : V) (m : Dict V)
      → Elem h (keys (insert k v m)) ↔ ((h ≡ k) ⊎ Elem h (keys m))
  unfolding insert
  insert-Elem h k v [] = (λ m. m, λ m. m)
  insert-Elem h k v ((j, w) ∷ m) = elim (Bool-cases (equal j k)) [
    | inl e ↦
        let same = (equal_iff j k).0 e in
        rw e (
          λ x. elim x [ inl a ↦ inl a | inr b ↦ inr (inr b) ],
          λ x. elim x [ inl a ↦ inl a | inr (inl b) ↦ inl (b ∙ same) | inr (inr c) ↦ inr c ],
        )
    | inr e ↦
        let (there, back) = insert-Elem h k v m in
        rw e (
          λ x. elim x [
            | inl a ↦ inr (inl a)
            | inr b ↦ elim (there b) [ inl c ↦ inl c | inr d ↦ inr (inr d) ]
          ],
          λ x. elim x [
            | inl a ↦ inr (back (inl a))
            | inr (inl b) ↦ inl b
            | inr (inr c) ↦ inr (back (inr c))
          ],
        )
  ]

  pub insert-All {κ} :
      (P : Bytes → Type κ) (k : Bytes) (v : V) (m : Dict V)
      → P k
      → All P (keys m)
      → All P (keys (insert k v m))
  unfolding insert
  insert-All P k v [] p h = (p, tt)
  insert-All P k v ((j, w) ∷ m) p (q, h) = elim (Bool-cases (equal j k)) [
    | inl e ↦ rw e (p, h)
    | inr e ↦ rw e (q, insert-All P k v m p h)
  ]

  pub insert-IsDistinct :
      (k : Bytes) (v : V) (m : Dict V) → IsDistinct (keys m) → IsDistinct (keys (insert k v m))
  unfolding insert
  insert-IsDistinct k v [] d = (tt, tt)
  insert-IsDistinct k v ((j, w) ∷ m) (h, d) = elim (Bool-cases (equal j k)) [
    | inl e ↦
        let same = (equal_iff j k).0 e in rw e (subst (λ x. All (λ b. x ≢ b) (keys m)) same h, d)
    | inr e ↦ rw e (insert-All (λ b. j ≢ b) k v m (differs j k e) h, insert-IsDistinct k v m d)
  ]
