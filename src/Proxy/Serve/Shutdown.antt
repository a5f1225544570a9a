-- ===== src/Proxy/Serve/Shutdown.antt =====
-- The way to the end of Serve, once the listener has failed.
use cc_mysub.Base.{
  ℕ, suc, ◌+◌, ◌*◌, ◌≤◌, true, false, Bool-cases, length, List, [], ◌∷◌, ◌≡◌, ◌⊎◌, inl, inr, refl,
  ap, ◌∙◌, arith, if◌then◌else◌,
}
use cc_mysub.Proxy.Serve.{
  Server, release, done, accept_error, return_error, Step, accepts, ends, leaves, fails, returns,
  Reachable,
}
use cc_mysub.Proxy.Serve.Slots.{IsValid, length-middle, Step-IsValid, Reachable-IsValid}

-- The steps that are left: two for each running connection, one for each that leaves, and the return.
abbrev pub steps_left : Server → ℕ
steps_left s = 2 * length s.running + length s.releasing + (if s.has_returned then 0 else 1)

-- A sequence of steps, with their number.
pub data Run (s : Server) : ℕ → Server → Type 0 where
  here : Run s 0 s
  next : (k : ℕ) (t u : Server) → Run s k t → Step t u → Run s (suc k) u

Step-closed :
    (s t : Server)
    → s.is_listening ≡ false
    → Step s t
    → (t.is_listening ≡ false) × (suc (steps_left t) ≤ steps_left s)
unfolding release done accept_error return_error
Step-closed s _ l (accepts id a) = cc
Step-closed s _ l (ends xs ys id e) =
    let k = ap length e ∙ length-middle xs ys id in (l, omega arith)
Step-closed s _ l (leaves xs ys id e) =
    let k = ap length e ∙ length-middle xs ys id in (l, omega arith)
Step-closed s _ l (fails a) = cc
Step-closed s _ l (returns a e f) = (l, rw f (omega arith))

Run-closed :
    (n : ℕ) (s : Server) (k : ℕ) (t : Server)
    → IsValid n s
    → s.is_listening ≡ false
    → Run s k t
    → IsValid n t × (t.is_listening ≡ false) × (k + steps_left t ≤ steps_left s)
Run-closed n s _ _ v l here = (v, l, omega arith)
Run-closed n s _ u v l (next k t _ r st) =
    let (w, m, h) = Run-closed n s k t v l r in
    let (m', g) = Step-closed t u m st in (Step-IsValid n t u w st, m', omega arith)

-- A connection in a list of at least one.
Step-progress :
    (n : ℕ) (t : Server)
    → IsValid n t
    → t.is_listening ≡ false
    → (t.has_returned ≡ true) ⊎ ((u : Server) × Step t u)
Step-progress n t (m, a, w, b, r) l = by_lists t.running t.releasing refl refl
  where
    by_lists :
        (xs ys : List ℕ)
        → t.running ≡ xs
        → t.releasing ≡ ys
        → (t.has_returned ≡ true) ⊎ ((u : Server) × Step t u)
    by_lists (x ∷ xs) ys e f = inr (release t [] x xs, ends [] xs x e)
    by_lists [] (y ∷ ys) e f = inr (done t [] ys, leaves [] ys y f)
    by_lists [] [] e f = elim (Bool-cases t.has_returned) [
      | inl h ↦ inl h
      | inr h ↦
          let k = ap length e in
          let j = ap length f in inr (return_error t, returns l (omega arith) h)
    ]

-- Once the listener has failed, each further step of Serve, its connections' ends included, brings it
-- closer to its return: at most steps_left steps follow, two for each running connection, one for each
-- that leaves and the return itself; and Serve has returned or can take a step.
pub closed_ends :
    (n : ℕ) (s : Server) (k : ℕ) (t : Server)
    → Reachable n s
    → s.is_listening ≡ false
    → Run s k t
    → (k ≤ steps_left s) × ((t.has_returned ≡ true) ⊎ ((u : Server) × Step t u))
closed_ends n s k t r l run =
    let (v, m, h) = Run-closed n s k t (Reachable-IsValid n s r) l run in
    (omega arith, Step-progress n t v m)
