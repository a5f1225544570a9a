-- ===== src/Config/Pool.antt =====
-- The pool of setup-tokens: what parseUpstream accepts, and what PickToken answers for such a pool.
use cc_mysub.Base.{
  ℕ, ◌+◌, Bytes, Bool, true, false, ◌&&◌, is_empty, equal, equal_iff, equal-false, equal_refl, Dict,
  insert, lookup-insert, lookup-nil, Option, some, List, [], ◌∷◌, Result-cases, ok, if◌then◌else◌,
  All, All_elem, Elem, ◌≡◌, ◌≢◌, ◌↔◌, ◌⊎◌, inl, inr, refl, sym, arith, Bool-cases, nonempty,
  is_empty-false,
}
use cc_mysub.Config.{
  UpstreamToken, Upstream, find_token, pick_from, pick_token, is_seen, check_pool, no_entries,
  check_upstream, parse_upstream, decoded,
}

-- No two entries share an id.
abbrev pub Distinct : List UpstreamToken → Type 0
Distinct [] = Unit {0}
Distinct (t ∷ ts) = All (λ (u : UpstreamToken). u.id ≢ t.id) ts × Distinct ts

abbrev pub IsFilled : UpstreamToken → Type 0
IsFilled t = (t.id ≢ []) × (t.token ≢ [])

pub record IsValid (u : Upstream) : Type 0 where
  pub some_token : (u.oauth_token ≢ []) ⊎ (u.oauth_tokens ≢ [])
  pub filled : All IsFilled u.oauth_tokens
  pub distinct : Distinct u.oauth_tokens

-- The ids of the entries are not among those seen.
abbrev Unseen : Dict Bool → List UpstreamToken → Type 0
Unseen seen = All (λ (t : UpstreamToken). is_seen seen t.id ≡ false)

is_seen-insert :
    (seen : Dict Bool) (id j : Bytes)
    → is_seen (insert id true seen) j ≡ (if equal id j then true else is_seen seen j)
is_seen-insert seen id j = ground (arith, lookup-insert id j true seen)

Unseen-insert :
    (seen : Dict Bool) (id : Bytes) (ts : List UpstreamToken)
    → Unseen (insert id true seen) ts
    → All (λ (t : UpstreamToken). t.id ≢ id) ts × Unseen seen ts
Unseen-insert seen id [] h = (tt, tt)
Unseen-insert seen id (t ∷ ts) (h, hs) =
    let (ne, us) = Unseen-insert seen id ts hs in
    (
      ((λ e. ground (arith, is_seen-insert seen id t.id, equal_iff id t.id)), ne),
      (ground (arith, is_seen-insert seen id t.id), us),
    )

Unseen-insert_of :
    (seen : Dict Bool) (id : Bytes) (ts : List UpstreamToken)
    → All (λ (t : UpstreamToken). t.id ≢ id) ts
    → Unseen seen ts
    → Unseen (insert id true seen) ts
Unseen-insert_of seen id [] n u = tt
Unseen-insert_of seen id (t ∷ ts) n u = (
  rw (is_seen-insert seen id t.id, equal-false id t.id (λ e. n.0 (sym e))) u.0,
  Unseen-insert_of seen id ts n.1 u.1,
)

check_pool_sound :
    (i : ℕ) (seen : Dict Bool) (ts : List UpstreamToken)
    → check_pool i seen ts ≡ ok tt
    → All IsFilled ts × Distinct ts × Unseen seen ts
unfolding check_pool
check_pool_sound i seen [] h = (tt, tt, tt)
check_pool_sound i seen (t ∷ ts) h = elim (Bool-cases (is_empty t.id)) [
  | inl a ↦ absurd (ground arith)
  | inr a ↦ elim (Bool-cases (is_empty t.token)) [
    | inl b ↦ absurd (ground arith)
    | inr b ↦ elim (Bool-cases (is_seen seen t.id)) [
      | inl c ↦ absurd (ground arith)
      | inr c ↦
          let (f, d, u) = check_pool_sound (i + 1) (insert t.id true seen) ts (ground arith) in
          let (ne, us) = Unseen-insert seen t.id ts u in
          (((nonempty _ a, nonempty _ b), f), (ne, d), (c, us))
    ]
  ]
]

check_pool_complete :
    (i : ℕ) (seen : Dict Bool) (ts : List UpstreamToken)
    → All IsFilled ts
    → Distinct ts
    → Unseen seen ts
    → check_pool i seen ts ≡ ok tt
unfolding check_pool
check_pool_complete i seen [] f d u = refl
check_pool_complete i seen (t ∷ ts) f d u = rw (
  is_empty-false t.id f.0.0,
  is_empty-false t.token f.0.1,
  u.0,
  check_pool_complete (i + 1) (insert t.id true seen) ts f.1 d.1
      (Unseen-insert_of seen t.id ts d.0 u.1),
)

some_token_of :
    (legacy : Bytes) (ts : List UpstreamToken)
    → (is_empty legacy && no_entries ts) ≡ false
    → (legacy ≢ []) ⊎ (ts ≢ [])
unfolding is_empty no_entries
some_token_of [] [] h = absurd (ground arith)
some_token_of [] (t ∷ ts) h = inr (λ e. cc)
some_token_of (c ∷ s) ts h = inl (λ e. cc)

no_guard :
    (legacy : Bytes) (ts : List UpstreamToken)
    → (legacy ≢ []) ⊎ (ts ≢ [])
    → (is_empty legacy && no_entries ts) ≡ false
unfolding is_empty no_entries
no_guard [] [] (inl n) = absurd (n refl)
no_guard [] [] (inr n) = absurd (n refl)
no_guard [] (t ∷ ts) h = refl
no_guard (c ∷ s) ts h = refl

check_upstream_sound : (u : Upstream) → check_upstream u ≡ ok u → IsValid u
unfolding check_upstream
check_upstream_sound u h = elim (Bool-cases (is_empty u.oauth_token && no_entries u.oauth_tokens)) [
  | inl a ↦ absurd (ground arith)
  | inr a ↦ elim (Result-cases (check_pool 0 [] u.oauth_tokens)) [
    | inl p ↦
        let (f, d, _) = check_pool_sound 0 [] u.oauth_tokens p in
        record {
          some_token = some_token_of u.oauth_token u.oauth_tokens a;
          filled = f;
          distinct = d;
        }
    | inr (e, p) ↦ absurd (ground arith)
  ]
]

Unseen-nil : (ts : List UpstreamToken) → Unseen [] ts
Unseen-nil [] = tt
Unseen-nil (t ∷ ts) = (ground (arith, lookup-nil {V = Bool} t.id), Unseen-nil ts)

check_upstream_complete : (u : Upstream) → IsValid u → check_upstream u ≡ ok u
unfolding check_upstream
check_upstream_complete u v = rw (
  no_guard u.oauth_token u.oauth_tokens v.some_token,
  check_pool_complete 0 [] u.oauth_tokens v.filled v.distinct (Unseen-nil u.oauth_tokens),
)

-- parseUpstream accepts what a document decodes to exactly when it holds a token, every pool entry has
-- an id and a token, and no id occurs twice.
pub parse_upstream_iff :
    (decode : Bytes → Option Upstream) (b : Bytes) (u : Upstream)
    → decode b ≡ some u
    → (parse_upstream decode b ≡ ok u) ↔ IsValid u
unfolding parse_upstream
parse_upstream_iff decode b u e =
    rw (e, decoded) (check_upstream_sound u, check_upstream_complete u)

find_token-missing :
    (id : Bytes) (ts : List UpstreamToken)
    → All (λ (t : UpstreamToken). t.id ≢ id) ts
    → find_token id ts ≡ []
unfolding find_token
find_token-missing id [] m = refl
find_token-missing id (t ∷ ts) m = rw (equal-false t.id id m.0) (find_token-missing id ts m.1)

find_token-nil :
    (id : Bytes) (ts : List UpstreamToken)
    → All IsFilled ts
    → find_token id ts ≡ []
    → All (λ (t : UpstreamToken). t.id ≢ id) ts
unfolding find_token
find_token-nil id [] f h = tt
find_token-nil id (t ∷ ts) f h = elim (Bool-cases (equal t.id id)) [
  | inl hit ↦ absurd (f.0.1 (rw hit at h))
  | inr miss ↦ ((λ e. ground (arith, equal_iff t.id id)), find_token-nil id ts f.1 (rw miss at h))
]

find_token-entry :
    (t : UpstreamToken) (ts : List UpstreamToken)
    → Distinct ts
    → Elem t ts
    → find_token t.id ts ≡ t.token
unfolding find_token
find_token-entry t [] d m = absurd m
find_token-entry t (x ∷ ts) d (inl e) = rw (e, equal_refl x.id)
find_token-entry t (x ∷ ts) d (inr m) =
    rw (equal-false x.id t.id (λ e. All_elem _ t ts d.0 m (sym e))) (find_token-entry t ts d.1 m)

pick_from-missing :
    (legacy id : Bytes) (ts : List UpstreamToken)
    → (legacy ≢ []) ⊎ (ts ≢ [])
    → All IsFilled ts
    → (pick_from legacy id ts ≡ []) ↔ ((id ≢ []) × All (λ (t : UpstreamToken). t.id ≢ id) ts)
unfolding pick_from
pick_from-missing legacy [] [] (inl n) f = (λ e. absurd (n e), λ m. absurd (m.0 refl))
pick_from-missing legacy [] [] (inr n) f = absurd (n refl)
pick_from-missing legacy [] (t ∷ ts) s f = (λ e. absurd (f.0.1 e), λ m. absurd (m.0 refl))
pick_from-missing legacy (c ∷ id) [] s f = (λ e. ((λ x. cc), tt), λ m. refl)
pick_from-missing legacy (c ∷ id) (t ∷ ts) s f = (
  λ e. ((λ x. cc), find_token-nil (c ∷ id) (t ∷ ts) f e),
  λ m. find_token-missing (c ∷ id) (t ∷ ts) m.1,
)

pick_from-entry :
    (legacy : Bytes) (t : UpstreamToken) (ts : List UpstreamToken)
    → All IsFilled ts
    → Distinct ts
    → Elem t ts
    → pick_from legacy t.id ts ≡ t.token
unfolding pick_from
pick_from-entry legacy t [] f d m = absurd m
pick_from-entry legacy t (x ∷ ts) f d m =
    rw (pick_from, is_empty-false t.id (All_elem IsFilled t (x ∷ ts) f m).0)
      (find_token-entry t (x ∷ ts) d m)

-- The id names no token: a pool without it, or a non-empty id where there is no pool.
abbrev pub Missing : Upstream → Bytes → Type 0
Missing u id = (id ≢ []) × All (λ (t : UpstreamToken). t.id ≢ id) u.oauth_tokens

-- For a valid pool PickToken gives the empty string exactly for the ids that are not empty and are
-- those of no entry.
pub pick_token-Missing :
    (u : Upstream) (id : Bytes) → IsValid u → (pick_token u id ≡ []) ↔ Missing u id
unfolding pick_token
pick_token-Missing u id v = pick_from-missing u.oauth_token id u.oauth_tokens v.some_token v.filled

-- For a valid pool PickToken gives, for the id of an entry, the token of that entry.
pub pick_token-entry :
    (u : Upstream) (t : UpstreamToken)
    → IsValid u
    → Elem t u.oauth_tokens
    → pick_token u t.id ≡ t.token
unfolding pick_token
pick_token-entry u t v m = pick_from-entry u.oauth_token t u.oauth_tokens v.filled v.distinct m
