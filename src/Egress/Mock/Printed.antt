-- ===== src/Egress/Mock/Printed.antt =====
-- What the mock prints of the requests that it has served.
use cc_mysub.Base.{
  All-weaken, Bytes, true, false, equal, equal_iff, Bool-cases, map, All, Elem, All_elem, List, [],
  ◌∷◌, ◌++◌, append_assoc, append-nil, ◌≡◌, ◌≢◌, ◌↔◌, inl, inr, refl, sym, subst, ◌∙◌, arith,
}
use cc_mysub.Egress.Sorting.{at_most, at_most_trans, at_most_antisymm, sort, IsSorted, IsIncreasing}
use cc_mysub.Egress.Sorting.Laws.{sort-Elem, sort-IsSorted}
use cc_mysub.Egress.Mock.{Recorder, add, Request, serve, serve_all, dedupe, printed}

abbrev Above : Bytes → Bytes → Type 0
Above a b = (at_most a b ≡ true) × (a ≢ b)

-- From a value below `x` and other than it, to what is not below `x`.
Above-trans : (last x b : Bytes) → Above last x → at_most x b ≡ true → Above last b
Above-trans last x b (h, n) k = (
  at_most_trans last x b h k,
  λ e. n (at_most_antisymm last x h (subst (λ c. at_most x c ≡ true) (sym e) k)),
)

above : (a last : Bytes) → at_most last a ≡ true → equal a last ≡ false → Above last a
above a last h e = (h, λ k. ground (arith, equal_iff a last))

dedupe-IsIncreasing :
    (last : Bytes) (xs : List Bytes)
    → IsSorted xs
    → All (λ b. at_most last b ≡ true) xs
    → All (Above last) (dedupe last xs) × IsIncreasing (dedupe last xs)
unfolding dedupe
dedupe-IsIncreasing last [] s h = (tt, tt)
dedupe-IsIncreasing last (x ∷ xs) (below, s) (p, h) = elim (Bool-cases (equal x last)) [
  | inl e ↦ rw e (dedupe-IsIncreasing last xs s h)
  | inr e ↦
      let (d, i) = dedupe-IsIncreasing x xs s below in
      let first = above x last p e in
      rw e ((first, All-weaken (λ b k. Above-trans last x b first k.0) (dedupe x xs) d), (d, i))
]

dedupe-Elem :
    (a last : Bytes) (xs : List Bytes)
    → IsSorted xs
    → All (λ b. at_most last b ≡ true) xs
    → Elem a (dedupe last xs) ↔ (Elem a xs × (a ≢ last))
unfolding dedupe
dedupe-Elem a last [] s h = (λ m. absurd m, λ m. absurd m.0)
dedupe-Elem a last (x ∷ xs) (below, s) (p, h) = elim (Bool-cases (equal x last)) [
  | inl e ↦
      let (there, back) = dedupe-Elem a last xs s h in
      let same = (equal_iff x last).0 e in
      rw e (
        λ m. let (k, n) = there m in (inr k, n),
        λ (k, n). elim k [ inl q ↦ absurd (n (q ∙ same)) | inr q ↦ back (q, n) ],
      )
  | inr e ↦
      let (there, back) = dedupe-Elem a x xs s below in
      let first = above x last p e in
      rw e (
        λ m. elim m [
          | inl q ↦ (inl q, λ k. first.1 (sym k ∙ q))
          | inr q ↦
              let (k, n) = there q in
              (
                inr k,
                λ z.
                    (Above-trans last x a first (All_elem (λ b. at_most x b ≡ true) a xs below k)).1
                      (sym z),
              )
        ],
        λ (k, n). elim k [
          | inl q ↦ inl q
          | inr q ↦ elim (Bool-cases (equal a x)) [
            | inl z ↦ inl ((equal_iff a x).0 z)
            | inr z ↦ inr (back (q, λ w. ground (arith, equal_iff a x)))
          ]
        ],
      )
]

least : (xs : List Bytes) → All (λ b. at_most [] b ≡ true) xs
unfolding at_most
least [] = tt
least (x ∷ xs) = (refl, least xs)

serve_all-auths :
    (rec : Recorder) (rs : List Request)
    → (serve_all rec rs).auths ≡ rec.auths ++ map (λ (r : Request). r.authorization) rs
unfolding serve_all serve add
serve_all-auths rec [] = sym (append-nil rec.auths)
serve_all-auths rec (r ∷ rs) =
    serve_all-auths (add rec r.authorization) rs
    ∙ append_assoc rec.auths (r.authorization ∷ []) (map (λ (q : Request). q.authorization) rs)

-- What is printed of any requests: in increasing order and each once, the Authorization values that
-- are not empty.
pub printed_lem :
    (rs : List Request)
    → IsIncreasing (printed (serve_all (record { auths = [] }) rs))
      × ((a : Bytes)
          → Elem a (printed (serve_all (record { auths = [] }) rs))
            ↔ (Elem a (map (λ (r : Request). r.authorization) rs) × (a ≢ [])))
unfolding printed
printed_lem rs =
    let auths = (serve_all (record { auths = [] }) rs).auths in
    let values = map (λ (r : Request). r.authorization) rs in
    let same = serve_all-auths (record { auths = [] }) rs in
    let sorted = sort-IsSorted auths in
    (
      (dedupe-IsIncreasing [] (sort auths) sorted (least (sort auths))).1,
      λ a.
          let (there, back) = dedupe-Elem a [] (sort auths) sorted (least (sort auths)) in
          let (down, up) = sort-Elem a auths in
          (
            λ m. let (k, n) = there m in (subst (Elem a) same (down k), n),
            λ (k, n). back (up (subst (Elem a) (sym same) k), n),
          ),
    )
