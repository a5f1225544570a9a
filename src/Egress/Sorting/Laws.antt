-- ===== src/Egress/Sorting/Laws.antt =====
-- A sorted list has the elements of the list, and an increasing list is the only one with its elements.
use cc_mysub.Base.{
  All-weaken, Bytes, true, Bool-cases, All, Elem, All_elem, List, [], ◌∷◌, ◌≡◌, ◌≢◌, ◌⊎◌, ◌↔◌, inl,
  inr, refl, sym, ap, subst, ◌∙◌,
}
use cc_mysub.Egress.Sorting.{
  at_most, at_most_trans, at_most_antisymm, at_most_total, insert_sorted, sort, IsSorted,
  IsIncreasing,
}

insert_sorted-All {κ} :
    (P : Bytes → Type κ) (a : Bytes) (bs : List Bytes) → P a → All P bs → All P (insert_sorted a bs)
unfolding insert_sorted
insert_sorted-All P a [] p h = (p, tt)
insert_sorted-All P a (b ∷ bs) p (q, h) = elim (Bool-cases (at_most a b)) [
  | inl e ↦ rw e (p, (q, h))
  | inr e ↦ rw e (q, insert_sorted-All P a bs p h)
]

insert_sorted-Elem :
    (h a : Bytes) (bs : List Bytes) → Elem h (insert_sorted a bs) ↔ ((h ≡ a) ⊎ Elem h bs)
unfolding insert_sorted
insert_sorted-Elem h a [] = (λ m. m, λ m. m)
insert_sorted-Elem h a (b ∷ bs) = elim (Bool-cases (at_most a b)) [
  | inl e ↦ rw e (λ m. m, λ m. m)
  | inr e ↦
      let (there, back) = insert_sorted-Elem h a bs in
      rw e (
        λ m. elim m [
          | inl x ↦ inr (inl x)
          | inr y ↦ elim (there y) [ inl x ↦ inl x | inr z ↦ inr (inr z) ]
        ],
        λ m. elim m [
          | inl x ↦ inr (back (inl x))
          | inr (inl y) ↦ inl y
          | inr (inr z) ↦ inr (back (inr z))
        ],
      )
]

pub sort-Elem : (h : Bytes) (xs : List Bytes) → Elem h (sort xs) ↔ Elem h xs
unfolding sort
sort-Elem h [] = (λ m. m, λ m. m)
sort-Elem h (a ∷ xs) =
    let (there, back) = insert_sorted-Elem h a (sort xs) in
    let (down, up) = sort-Elem h xs in
    (
      λ m. elim (there m) [ inl x ↦ inl x | inr y ↦ inr (down y) ],
      λ m. elim m [ inl x ↦ back (inl x) | inr y ↦ back (inr (up y)) ],
    )

insert_sorted-IsSorted : (a : Bytes) (bs : List Bytes) → IsSorted bs → IsSorted (insert_sorted a bs)
unfolding insert_sorted
insert_sorted-IsSorted a [] h = (tt, tt)
insert_sorted-IsSorted a (b ∷ bs) (below, h) = elim (Bool-cases (at_most a b)) [
  | inl e ↦ rw e ((e, All-weaken (λ c k. at_most_trans a b c e k) bs below), (below, h))
  | inr e ↦ rw e (
    insert_sorted-All (λ c. at_most b c ≡ true) a bs (at_most_total a b e) below,
    insert_sorted-IsSorted a bs h,
  )
]

pub sort-IsSorted : (xs : List Bytes) → IsSorted (sort xs)
unfolding sort
sort-IsSorted [] = tt
sort-IsSorted (a ∷ xs) = insert_sorted-IsSorted a (sort xs) (sort-IsSorted xs)

-- No two alike.
abbrev pub IsDistinct : List Bytes → Type 0
IsDistinct [] = Unit
IsDistinct (a ∷ xs) = All (λ b. a ≢ b) xs × IsDistinct xs

All-of_Elem {κ} :
    (P : Bytes → Type κ) (xs : List Bytes) → ((h : Bytes) → Elem h xs → P h) → All P xs
All-of_Elem P [] f = tt
All-of_Elem P (x ∷ xs) f = (f x (inl refl), All-of_Elem P xs (λ h m. f h (inr m)))

insert_sorted-IsDistinct :
    (a : Bytes) (bs : List Bytes)
    → All (λ b. a ≢ b) bs
    → IsDistinct bs
    → IsDistinct (insert_sorted a bs)
unfolding insert_sorted
insert_sorted-IsDistinct a [] h d = (tt, tt)
insert_sorted-IsDistinct a (b ∷ bs) (n, h) (below, d) = elim (Bool-cases (at_most a b)) [
  | inl e ↦ rw e ((n, h), (below, d))
  | inr e ↦ rw e (
    insert_sorted-All (λ c. b ≢ c) a bs (λ k. n (sym k)) below,
    insert_sorted-IsDistinct a bs h d,
  )
]

sort-IsDistinct : (xs : List Bytes) → IsDistinct xs → IsDistinct (sort xs)
unfolding sort
sort-IsDistinct [] d = tt
sort-IsDistinct (a ∷ xs) (h, d) =
    insert_sorted-IsDistinct a (sort xs)
      (All-of_Elem (λ b. a ≢ b) (sort xs)
        (λ b m. All_elem (λ c. a ≢ c) b xs h ((sort-Elem b xs).0 m)))
      (sort-IsDistinct xs d)

both :
    (a : Bytes) (xs : List Bytes)
    → All (λ b. at_most a b ≡ true) xs
    → All (λ b. a ≢ b) xs
    → All (λ b. (at_most a b ≡ true) × (a ≢ b)) xs
both a [] h k = tt
both a (x ∷ xs) (p, h) (q, k) = ((p, q), both a xs h k)

increasing : (xs : List Bytes) → IsSorted xs → IsDistinct xs → IsIncreasing xs
increasing [] s d = tt
increasing (x ∷ xs) (p, s) (q, d) = (both x xs p q, increasing xs s d)

pub sort-IsIncreasing : (xs : List Bytes) → IsDistinct xs → IsIncreasing (sort xs)
sort-IsIncreasing xs d = increasing (sort xs) (sort-IsSorted xs) (sort-IsDistinct xs d)

-- The least element is determined.
head_eq :
    (x y : Bytes) (xs ys : List Bytes)
    → IsIncreasing (x ∷ xs)
    → IsIncreasing (y ∷ ys)
    → Elem x (y ∷ ys)
    → Elem y (x ∷ xs)
    → x ≡ y
head_eq x y xs ys h k (inl e) m = e
head_eq x y xs ys h k (inr n) (inl e) = sym e
head_eq x y xs ys (h, hs) (k, ks) (inr n) (inr m) =
    at_most_antisymm x y (All_elem (λ b. (at_most x b ≡ true) × (x ≢ b)) y xs h m).0
      (All_elem (λ b. (at_most y b ≡ true) × (y ≢ b)) x ys k n).0

tail_Elem :
    (x h : Bytes) (xs ys : List Bytes)
    → IsIncreasing (x ∷ xs)
    → Elem h xs
    → Elem h (x ∷ ys)
    → Elem h ys
tail_Elem x h xs ys (below, hs) m (inl e) =
    absurd ((All_elem (λ b. (at_most x b ≡ true) × (x ≢ b)) h xs below m).1 (sym e))
tail_Elem x h xs ys v m (inr n) = n

pub IsIncreasing-unique :
    (xs ys : List Bytes)
    → IsIncreasing xs
    → IsIncreasing ys
    → ((h : Bytes) → Elem h xs ↔ Elem h ys)
    → xs ≡ ys
IsIncreasing-unique [] [] h k same = refl
IsIncreasing-unique [] (y ∷ ys) h k same = absurd ((same y).1 (inl refl))
IsIncreasing-unique (x ∷ xs) [] h k same = absurd ((same x).0 (inl refl))
IsIncreasing-unique (x ∷ xs) (y ∷ ys) h k same =
    let e = head_eq x y xs ys h k ((same x).0 (inl refl)) ((same y).1 (inl refl)) in
    let k' = subst (λ z. IsIncreasing (z ∷ ys)) (sym e) k in
    let tails = IsIncreasing-unique xs ys h.1 k.1 (λ a. (
      λ m. tail_Elem x a xs ys h m (subst (λ z. Elem a (z ∷ ys)) (sym e) ((same a).0 (inr m))),
      λ m. tail_Elem x a ys xs k' m ((same a).1 (inr m)),
    )) in
    ap (λ z. z ∷ xs) e ∙ ap (λ zs. y ∷ zs) tails
