-- ===== src/Egress/Inventory/Counts.antt =====
-- The inventory counts the connections of each host, whatever their order.
use mathlib.Core.Path.{fun_ext}
use cc_mysub.Base.{
  ℕ, suc, ◌+◌, ◌<◌, Bytes, false, equal, equal_iff, Bool-cases, Dict, lookup, lookup-insert,
  lookup-nil, map, Elem, List, [], ◌∷◌, ◌≡◌, ◌↔◌, inl, inr, sym, ap, ◌∙◌, arith, if◌then◌else◌,
}
use cc_mysub.Egress.Keys.{keys, differs, insert-Elem, insert-IsDistinct}
use cc_mysub.Egress.Sorting.{sort, IsIncreasing}
use cc_mysub.Egress.Sorting.Laws.{IsDistinct, sort-Elem, sort-IsIncreasing, IsIncreasing-unique}
use cc_mysub.Egress.Inventory.{host_of, count_of, see, see_all, line_of, report, inventory}

-- How often the host stands in the list.
abbrev pub count : Bytes → List Bytes → ℕ
count h [] = 0
count h (x ∷ xs) = if equal x h then suc (count h xs) else count h xs

see-count :
    (host h : Bytes) (m : Dict ℕ)
    → count_of (lookup h (see host m))
      ≡ (if equal host h then suc (count_of (lookup h m)) else count_of (lookup h m))
unfolding see
see-count host h m =
    ground (arith, lookup-insert host h (suc (count_of (lookup host m))) m, equal_iff host h)

see_all-count :
    (h : Bytes) (hs : List Bytes) (m : Dict ℕ)
    → count_of (lookup h (see_all hs m)) ≡ count h hs + count_of (lookup h m)
unfolding see_all
see_all-count h [] m = omega arith
see_all-count h (x ∷ hs) m = ground (arith, see_all-count h hs (see x m), see-count x h m)

-- The keys are distinct, and are those of a positive count.
pub record IsCounted (m : Dict ℕ) : Type 0 where
  pub distinct : IsDistinct (keys m)
  pub counted : (h : Bytes) → Elem h (keys m) ↔ (0 < count_of (lookup h m))

see-counted :
    (host h : Bytes) (m : Dict ℕ)
    → Elem h (keys m) ↔ (0 < count_of (lookup h m))
    → Elem h (keys (see host m)) ↔ (0 < count_of (lookup h (see host m)))
see-counted host h m (there, back) = elim (Bool-cases (equal host h)) [
  | inl e ↦
      let c = see-count host h m in
      let same = (equal_iff host h).0 e in
      (
        λ x. rw (c, e) (omega arith),
        λ x.
            unfold see in
            (insert-Elem h host (suc (count_of (lookup host m))) m).1 (inl (sym same)),
      )
  | inr e ↦
      let c = see-count host h m in
      (
        λ x. rw (c, e) (there (old x e)),
        λ x.
            unfold see in
            (insert-Elem h host (suc (count_of (lookup host m))) m).1 (inr (back (rw (c, e) at x))),
      )
]
  where
    old : Elem h (keys (see host m)) → equal host h ≡ false → Elem h (keys m)
    old x e =
        unfold see in
        elim ((insert-Elem h host (suc (count_of (lookup host m))) m).0 x) [
          | inl a ↦ absurd (differs host h e (sym a))
          | inr b ↦ b
        ]

see-IsCounted : (host : Bytes) (m : Dict ℕ) → IsCounted m → IsCounted (see host m)
see-IsCounted host m v = record {
  distinct = unfold see in insert-IsDistinct host (suc (count_of (lookup host m))) m v.distinct;
  counted = λ h. see-counted host h m (v.counted h);
}

see_all-IsCounted : (hs : List Bytes) (m : Dict ℕ) → IsCounted m → IsCounted (see_all hs m)
unfolding see_all
see_all-IsCounted [] m v = v
see_all-IsCounted (x ∷ hs) m v = see_all-IsCounted hs (see x m) (see-IsCounted x m v)

empty-IsCounted : IsCounted []
empty-IsCounted = record {
  distinct = tt;
  counted = λ h. (λ m. absurd m, λ k. absurd (ground (arith, lookup-nil {V = ℕ} h)));
}

module _ (hs : List Bytes) where
  abbrev seen : Dict ℕ
  seen = see_all hs []

  seen-count : (h : Bytes) → count_of (lookup h seen) ≡ count h hs
  seen-count h = see_all-count h hs [] ∙ rw (lookup-nil {V = ℕ} h) (omega arith)

  seen-Elem : (h : Bytes) → Elem h (sort (keys seen)) ↔ (0 < count h hs)
  seen-Elem h =
      let (down, up) = sort-Elem h (keys seen) in
      let (there, back) = (see_all-IsCounted hs [] empty-IsCounted).counted h in
      let c = seen-count h in (λ m. rw c at (there (down m)), λ k. up (back (rw c k)))

  seen-IsIncreasing : IsIncreasing (sort (keys seen))
  seen-IsIncreasing =
      sort-IsIncreasing (keys seen) (see_all-IsCounted hs [] empty-IsCounted).distinct

  line_of-seen : line_of seen ≡ (λ h. (h, count h hs))
  line_of-seen = fun_ext (λ h. ap (λ n. (h, n)) (seen-count h))

  report-seen : report seen ≡ map (λ h. (h, count h hs)) (sort (keys seen))
  unfolding report
  report-seen = ap (λ f. map f (sort (keys seen))) line_of-seen

-- One line for each host that some connection names, in increasing order, with how many name it.
pub inventory_lem :
    (packets : List Bytes)
    → (hs : List Bytes) × IsIncreasing hs
      × ((h : Bytes) → Elem h hs ↔ (0 < count h (map host_of packets)))
      × (inventory packets ≡ map (λ h. (h, count h (map host_of packets))) hs)
unfolding inventory
inventory_lem packets =
    let hs = map host_of packets in
    (sort (keys (see_all hs [])), seen-IsIncreasing hs, seen-Elem hs, report-seen hs)

-- Two sequences of connections with the same number of connections for every host print the same
-- inventory, in whatever order they come.
pub inventory_same :
    (packets others : List Bytes)
    → ((h : Bytes) → count h (map host_of packets) ≡ count h (map host_of others))
    → inventory packets ≡ inventory others
inventory_same packets others same =
    let (hs, i, m, e) = inventory_lem packets in
    let (ks, j, n, f) = inventory_lem others in
    let counts =
      fun_ext {f = λ h. count h (map host_of packets)} {g = λ h. count h (map host_of others)}
        same in
    let lists = IsIncreasing-unique hs ks i j (λ h.
      (λ x. (n h).1 (rw (same h) at ((m h).0 x)), λ x. (m h).1 (rw (← same h) at ((n h).0 x)))) in
    e
    ∙ ap (λ (c : Bytes → ℕ). map (λ h. (h, c h)) hs) counts
    ∙ ap (map (λ h. (h, count h (map host_of others)))) lists
    ∙ sym f
