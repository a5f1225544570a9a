-- ===== src/Egress/Diag/Hits.antt =====
-- What the diagnosis prints: for each host, method and path, how many requests there were and what the
-- last one had.
use mathlib.Core.Path.{fun_ext}
use cc_mysub.Base.{
  suc, Bytes, Bool, ◌&&◌, not, is_empty, equal, equal_iff, Bool-cases, Dict, lookup, lookup-insert,
  lookup-nil, map, Elem, List, [], ◌∷◌, ◌≡◌, ◌⊎◌, ◌↔◌, inl, inr, refl, sym, ap, subst, ◌∙◌,
  if◌then◌else◌,
}
use cc_mysub.Egress.Sorting.{sort, IsIncreasing}
use cc_mysub.Egress.Sorting.Laws.{IsDistinct, sort-Elem, sort-IsIncreasing}
use cc_mysub.Egress.Keys.{keys, insert-Elem, insert-IsDistinct}
use cc_mysub.Egress.Diag.{
  Request, Hit, Diag, key_of, sample_of, hit_of, record_hit, handle, handle_all, printed,
}

-- How many requests have the key, and the sample of the last of them.
abbrev pub expected : Bytes → List Request → Hit → Hit
expected k [] h = h
expected k (r ∷ rs) h =
    if equal (key_of r) k
    then expected k rs (record { count = suc h.count; sample = sample_of r })
    else expected k rs h

handle-hits :
    (dumping : Bool) (r : Request) (d : Diag) → (handle dumping r d).hits ≡ record_hit r d.hits
unfolding handle
handle-hits dumping r d = elim (Bool-cases (dumping && not (is_empty r.body))) [
  | inl e ↦ rw e refl
  | inr e ↦ rw e refl
]

record_hit-lookup :
    (r : Request) (k : Bytes) (m : Dict Hit)
    → hit_of (lookup k (record_hit r m)) ≡ (
        if equal (key_of r) k
        then record { count = suc (hit_of (lookup k m)).count; sample = sample_of r }
        else hit_of (lookup k m))
unfolding record_hit
record_hit-lookup r k m = elim (Bool-cases (equal (key_of r) k)) [
  | inl e ↦
      let same = (equal_iff (key_of r) k).0 e in
      rw
        (
          lookup-insert (key_of r) k
              (record { count = suc (hit_of (lookup (key_of r) m)).count; sample = sample_of r }) m,
          e,
        )
        (ap (λ x. record { count = suc (hit_of (lookup x m)).count; sample = sample_of r }) same)
  | inr e ↦
      rw
        (
          lookup-insert (key_of r) k
              (record { count = suc (hit_of (lookup (key_of r) m)).count; sample = sample_of r }) m,
          e,
        )
        refl
]

handle_all-lookup :
    (dumping : Bool) (k : Bytes) (rs : List Request) (d : Diag)
    → hit_of (lookup k (handle_all dumping rs d).hits) ≡ expected k rs (hit_of (lookup k d.hits))
unfolding handle_all
handle_all-lookup dumping k [] d = refl
handle_all-lookup dumping k (r ∷ rs) d =
    handle_all-lookup dumping k rs (handle dumping r d)
    ∙ ap (λ m. expected k rs (hit_of (lookup k m))) (handle-hits dumping r d)
    ∙ ap (expected k rs) (record_hit-lookup r k d.hits)
    ∙ turned
  where
    turned :
        expected k rs (
          if equal (key_of r) k
          then record { count = suc (hit_of (lookup k d.hits)).count; sample = sample_of r }
          else hit_of (lookup k d.hits))
        ≡ expected k (r ∷ rs) (hit_of (lookup k d.hits))
    turned = elim (Bool-cases (equal (key_of r) k)) [ inl e ↦ rw e refl | inr e ↦ rw e refl ]

handle_all-IsDistinct :
    (dumping : Bool) (rs : List Request) (d : Diag)
    → IsDistinct (keys d.hits)
    → IsDistinct (keys (handle_all dumping rs d).hits)
unfolding handle_all record_hit
handle_all-IsDistinct dumping [] d h = h
handle_all-IsDistinct dumping (r ∷ rs) d h = handle_all-IsDistinct dumping rs (handle dumping r d) (
    rw (handle-hits dumping r d) (
      insert-IsDistinct (key_of r)
        (record { count = suc (hit_of (lookup (key_of r) d.hits)).count; sample = sample_of r })
        d.hits h))

-- A key stands among the keys exactly if it did or a request has it.
handle_all-Elem :
    (dumping : Bool) (k : Bytes) (rs : List Request) (d : Diag)
    → Elem k (keys (handle_all dumping rs d).hits) ↔ (Elem k (map key_of rs) ⊎ Elem k (keys d.hits))
unfolding handle_all record_hit
handle_all-Elem dumping k [] d = (λ m. inr m, λ m. elim m [ inl a ↦ absurd a | inr b ↦ b ])
handle_all-Elem dumping k (r ∷ rs) d =
    let d' = handle dumping r d in
    let (there, back) = handle_all-Elem dumping k rs d' in
    let (down, up) =
      insert-Elem k (key_of r)
        (record { count = suc (hit_of (lookup (key_of r) d.hits)).count; sample = sample_of r })
        d.hits in
    let same = ap keys (handle-hits dumping r d) in
    (
      λ m. elim (there m) [
        | inl a ↦ inl (inr a)
        | inr b ↦ elim (down (subst (Elem k) same b)) [ inl c ↦ inl (inl c) | inr c ↦ inr c ]
      ],
      λ m. elim m [
        | inl (inl c) ↦ back (inr (subst (Elem k) (sym same) (up (inl c))))
        | inl (inr a) ↦ back (inl a)
        | inr c ↦ back (inr (subst (Elem k) (sym same) (up (inr c))))
      ],
    )

abbrev start : Diag
start = record { hits = []; seq = 0; dumps = [] }

abbrev pub no_hit : Hit
no_hit = record { count = 0; sample = [] }

-- For any requests from the start: what is printed is one line for each host, method and path that some
-- request has, in increasing order, with the number of such requests and the sample of the last one.
pub printed_lem :
    (dumping : Bool) (rs : List Request)
    → (ks : List Bytes) × IsIncreasing ks
      × ((k : Bytes) → Elem k ks ↔ Elem k (map key_of rs))
      × (printed (handle_all dumping rs (record { hits = []; seq = 0; dumps = [] })).hits
          ≡ map (λ k. (k, expected k rs no_hit)) ks)
unfolding printed
printed_lem dumping rs =
    let m = (handle_all dumping rs start).hits in
    (
      sort (keys m),
      sort-IsIncreasing (keys m) (handle_all-IsDistinct dumping rs start tt),
      λ k. (
        λ x. elim ((handle_all-Elem dumping k rs start).0 ((sort-Elem k (keys m)).0 x)) [
          | inl a ↦ a
          | inr b ↦ absurd b
        ],
        λ x. (sort-Elem k (keys m)).1 ((handle_all-Elem dumping k rs start).1 (inl x)),
      ),
      ap (λ (f : Bytes → Bytes × Hit). map f (sort (keys m)))
          (fun_ext (λ k.
            ap (λ h. (k, h))
              (handle_all-lookup dumping k rs start
                ∙ ap (λ o. expected k rs (hit_of o)) (lookup-nil {V = Hit} k)))),
    )
