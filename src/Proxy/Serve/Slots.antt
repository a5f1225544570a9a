-- ===== src/Proxy/Serve/Slots.antt =====
-- The bound on connections in flight, and the end of Serve.
use cc_mysub.Base.{
  ℕ, suc, ◌+◌, ◌≤◌, ◌<◌, true, false, ltb, ltb→lt, le_of_ltb, Bool-cases, length, length-append,
  List, ◌∷◌, ◌++◌, ◌≡◌, ◌⊎◌, inl, inr, refl, ap, ◌∙◌, arith,
}
use cc_mysub.Proxy.Serve.{
  Server, accept_conn, release, done, accept_error, return_error, Step, accepts, ends, leaves,
  fails, returns, Reachable, start, step,
}

-- A running connection holds a slot, and every one that is not gone counts in the wait group; a loop
-- that has returned has stopped accepting and left none.
abbrev pub IsValid : ℕ → Server → Type 0
IsValid n s =
    (s.max_in_flight ≡ n)
    × (s.sema ≡ length s.running)
    × (s.wg ≡ length s.running + length s.releasing)
    × (s.sema ≤ n)
    × ((s.has_returned ≡ false) ⊎ ((s.is_listening ≡ false) × (s.wg ≡ 0)))

pub length-middle : (xs ys : List ℕ) (id : ℕ) → length (xs ++ id ∷ ys) ≡ suc (length (xs ++ ys))
length-middle xs ys id = omega (arith, length-append xs (id ∷ ys), length-append xs ys)

abbrev Rest : Server → Type 0
Rest s = (s.has_returned ≡ false) ⊎ ((s.is_listening ≡ false) × (s.wg ≡ 0))

listening_Rest : (s : Server) → s.is_listening ≡ true → Rest s → s.has_returned ≡ false
listening_Rest s l (inl e) = e
listening_Rest s l (inr (e, w)) = cc

counted_Rest : (s : Server) → 0 < s.wg → Rest s → s.has_returned ≡ false
counted_Rest s h (inl e) = e
counted_Rest s h (inr (l, w)) = absurd (omega arith)

accept_conn-IsValid :
    (n : ℕ) (s : Server) (id : ℕ)
    → s.is_listening ≡ true
    → IsValid n s
    → IsValid n (accept_conn s id)
unfolding accept_conn
accept_conn-IsValid n s id l (m, a, w, b, r) = elim (Bool-cases (ltb s.sema s.max_in_flight)) [
  | inl c ↦ rw c (
    m,
    omega arith,
    omega arith,
    omega (arith, ltb→lt s.sema s.max_in_flight c),
    inl (listening_Rest s l r),
  )
  | inr c ↦ rw c (m, a, w, b, r)
]

pub Step-IsValid : (n : ℕ) (s t : Server) → IsValid n s → Step s t → IsValid n t
unfolding release done accept_error return_error
Step-IsValid n s _ v (accepts id l) = accept_conn-IsValid n s id l v
Step-IsValid n s _ (m, a, w, b, r) (ends xs ys id e) =
    let k = ap length e ∙ length-middle xs ys id in (m, omega arith, omega arith, omega arith, r)
Step-IsValid n s _ (m, a, w, b, r) (leaves xs ys id e) =
    let k = ap length e ∙ length-middle xs ys id in
    (m, a, omega arith, b, inl (counted_Rest s (omega arith) r))
Step-IsValid n s _ (m, a, w, b, r) (fails l) = (m, a, w, b, inl (listening_Rest s l r))
Step-IsValid n s _ (m, a, w, b, r) (returns l e f) = (m, a, w, b, inr (l, e))

-- With a limit of n, in whatever order connections come and end: as many slots are taken as connections
-- run, at most n, the wait group counts those that run and those that are about to leave it, and once
-- Serve has returned the group is empty.
pub Reachable-IsValid : (n : ℕ) (s : Server) → Reachable n s → IsValid n s
Reachable-IsValid n _ start = (refl, refl, omega arith, omega arith, inl refl)
Reachable-IsValid n t (step s _ r k) = Step-IsValid n s t (Reachable-IsValid n s r) k

-- In every state that can be reached with a limit of n, a connection that is accepted is closed at once
-- exactly when n others run, and otherwise joins those that run.
pub accept_conn-shed :
    (n : ℕ) (s : Server) (id : ℕ)
    → Reachable n s
    → ((length s.running ≡ n)
        × ((accept_conn s id).shed ≡ id ∷ s.shed)
        × ((accept_conn s id).running ≡ s.running))
      ⊎ ((length s.running < n)
          × ((accept_conn s id).shed ≡ s.shed)
          × ((accept_conn s id).running ≡ id ∷ s.running))
unfolding accept_conn
accept_conn-shed n s id r =
    let (m, a, w, b, e) = Reachable-IsValid n s r in
    elim (Bool-cases (ltb s.sema s.max_in_flight)) [
      | inl c ↦ rw c (inr (omega (arith, ltb→lt s.sema s.max_in_flight c), refl, refl))
      | inr c ↦ rw c (inl (omega (arith, le_of_ltb s.sema s.max_in_flight c), refl, refl))
    ]
