-- ===== src/RateLimit/Isolation.antt =====
-- The devices do not disturb one another.
use mathlib.Core.Bool.{false≢true}
use cc_mysub.Base.{
  ℕ, Bytes, Bool, equal, equal_iff, equal-false, lookup, lookup-insert, List, [], ◌∷◌, ℤ,
  is_positive, ◌≡◌, ◌≢◌, refl, if◌then◌else◌, Bool-cases, inl, inr, sym, ap, subst, ◌∙◌, equal_refl,
  pos_part,
}
use cc_mysub.RateLimit.{Bucket, Limiter, allow, bucket_of, take_token, refill}

-- A call of Allow.
pub record Request : Type 0 where
  pub device : Bytes
  pub per_minute : ℤ
  pub now : ℕ

-- The answers to the requests of one device, in a history of all devices.
abbrev pub answers : Bytes → Limiter → List Request → List Bool
answers d l [] = []
answers d l (r ∷ rs) =
    let (answer, l') = allow l r.device r.per_minute r.now in
    let rest = answers d l' rs in if equal r.device d then answer ∷ rest else rest

abbrev pub only : Bytes → List Request → List Request
only d [] = []
only d (r ∷ rs) = let rest = only d rs in if equal r.device d then r ∷ rest else rest

abbrev serve : Limiter → Bytes → ℤ → ℕ → Bool × Bucket
serve l d n t = take_token (refill (pos_part n) t (bucket_of (pos_part n) t (lookup d l)))

allow-other :
    (l : Limiter) (d e : Bytes) (n : ℤ) (t : ℕ) → d ≢ e → lookup e (allow l d n t).1 ≡ lookup e l
unfolding allow
allow-other l d e n t h = elim (Bool-cases (is_positive n)) [
  | inl p ↦ rw (p, lookup-insert d e (serve l d n t).1 l, equal-false d e h)
  | inr p ↦ rw p
]

allow-same :
    (l k : Limiter) (d : Bytes) (n : ℤ) (t : ℕ)
    → lookup d l ≡ lookup d k
    → ((allow l d n t).0 ≡ (allow k d n t).0)
      × (lookup d (allow l d n t).1 ≡ lookup d (allow k d n t).1)
unfolding allow
allow-same l k d n t h = elim (Bool-cases (is_positive n)) [
  | inl p ↦
      rw
        (
          p,
          lookup-insert d d (serve l d n t).1 l,
          lookup-insert d d (serve k d n t).1 k,
          equal_refl d,
          h,
        )
        (refl, refl)
  | inr p ↦ rw p (refl, h)
]

answers-agree :
    (d : Bytes) (l k : Limiter) (rs : List Request)
    → lookup d l ≡ lookup d k
    → answers d l rs ≡ answers d k (only d rs)
answers-agree d l k [] h = refl
answers-agree d l k (r ∷ rs) h = elim (Bool-cases (equal r.device d)) [
  | inl mine ↦
      let e = (equal_iff r.device d).0 mine in
      let (a, b) = allow-same l k r.device r.per_minute r.now (rw e h) in
      rw (mine, mine, a)
        (ap (◌∷◌ (allow k r.device r.per_minute r.now).0) (
          answers-agree d _ (allow k r.device r.per_minute r.now).1 rs (
            subst
              (λ x.
                lookup x (allow l r.device r.per_minute r.now).1
                ≡ lookup x (allow k r.device r.per_minute r.now).1)
              e b)))
  | inr other ↦ rw other (
      answers-agree d (allow l r.device r.per_minute r.now).1 k rs (
        allow-other l r.device d r.per_minute r.now
          (λ e. false≢true (sym other ∙ (equal_iff r.device d).1 e))
        ∙ h))
]

-- In a history of calls for any devices, with any limits and times, the answers to one device are those
-- that it gets from its own calls alone.
pub answers-only :
    (d : Bytes) (l : Limiter) (rs : List Request) → answers d l rs ≡ answers d l (only d rs)
answers-only d l rs = answers-agree d l l rs refl
