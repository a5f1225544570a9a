-- ===== src/RateLimit/Window.antt =====
-- How many requests of one device get through in a stretch of time.
use cc_mysub.Base.{
  ℕ, ◌+◌, ◌-◌, ◌*◌, ◌≤◌, ◌<◌, Bytes, Bool, true, false, lookup, lookup-insert, equal_refl, Option,
  none, some, List, [], ◌∷◌, pos, ◌≡◌, refl, All, All-map, lt→ltb, if◌then◌else◌, arith,
}
use cc_mysub.RateLimit.{unit, Bucket, Limiter, burst, bucket_of, allow, allow_at}
use cc_mysub.RateLimit.Refill.{
  spend, cost, spend_balance, spend_capped, spend_last, spend_last-le, spend_after_wait,
}

-- The requests that a bucket lets through, made at the given times.
abbrev admitted : ℕ → Bucket → List ℕ → ℕ
admitted n b [] = 0
admitted n b (t ∷ ts) = (if (spend n t b).0 then 1 else 0) + admitted n (spend n t b).1 ts

cost-unit : (b : Bool) → cost b ≡ (if b then 1 else 0) * unit
cost-unit true = refl
cost-unit false = refl

-- While the clock stays at most at `end`.
admitted_balance :
    (n end : ℕ) (b : Bucket) (ts : List ℕ)
    → b.last ≤ end
    → All (λ t. t ≤ end) ts
    → admitted n b ts * unit + n * b.last ≤ b.tokens + n * end
admitted_balance n end b [] h k = grind arith
admitted_balance n end b (t ∷ ts) h k = omega (
  arith,
  spend_balance n t b,
  cost-unit (spend n t b).0,
  admitted_balance n end (spend n t b).1 ts (spend_last-le n t end b h k.0) k.1,
)

mul_mono : (n a b : ℕ) → a ≤ b → n * a ≤ n * b
mul_mono n a b h = grind arith

mul_sub : (n a b : ℕ) → a ≤ b → n * (b - a) + n * a ≡ n * b
mul_sub n a b h = grind arith

-- Whatever came before, and in whatever order the calls see the clock.
admitted_window :
    (n start end : ℕ) (b : Bucket) (ts : List ℕ)
    → b.tokens ≤ burst n
    → b.last ≤ end
    → start ≤ end
    → All (λ t. (start ≤ t) × (t ≤ end)) ts
    → admitted n b ts * unit + n * start ≤ burst n + n * end
admitted_window n start end b [] c l s h = grind arith
admitted_window n start end b (t ∷ ts) c l s h = omega (
  arith,
  spend_capped n t b c,
  cost-unit (spend n t b).0,
  mul_mono n start (spend n t b).1.last (omega (arith, spend_last n t b)),
  admitted_balance n end (spend n t b).1 ts (spend_last-le n t end b l h.0.1)
      (All-map _ (λ u. u ≤ end) (λ u p. p.1) ts h.1),
)

-- Requests of one device, served by the limiter: how many get through.
abbrev pub requests : Limiter → Bytes → ℕ → List ℕ → ℕ
requests l device n [] = 0
requests l device n (t ∷ ts) =
    (if (allow l device (pos n) t).0 then 1 else 0)
    + requests (allow l device (pos n) t).1 device n ts

allow-spend :
    (l : Limiter) (device : Bytes) (n t : ℕ)
    → 0 < n
    → allow l device (pos n) t ≡ allow_at l device (spend n t (bucket_of n t (lookup device l)))
unfolding allow
allow-spend l device n t h = rw (lt→ltb 0 n h)

allow_at-lookup :
    (l : Limiter) (device : Bytes) (r : Bool × Bucket)
    → lookup device (allow_at l device r).1 ≡ some r.1
unfolding allow_at
allow_at-lookup l device r = rw (lookup-insert device device r.1 l, equal_refl device)

allow_at-answer : (l : Limiter) (device : Bytes) (r : Bool × Bucket) → (allow_at l device r).0 ≡ r.0
unfolding allow_at
allow_at-answer l device r = refl

requests-admitted :
    (l : Limiter) (device : Bytes) (n : ℕ) (b : Bucket) (ts : List ℕ)
    → 0 < n
    → lookup device l ≡ some b
    → requests l device n ts ≡ admitted n b ts
requests-admitted l device n b [] p e = refl
requests-admitted l device n b (t ∷ ts) p e = rw (
  allow-spend l device n t p,
  e,
  allow_at-answer l device (spend n t b),
  requests-admitted (allow_at l device (spend n t b)).1 device n (spend n t b).1 ts p
      (allow_at-lookup l device (spend n t b)),
)

-- The bucket holds at most the burst, and has not seen a later time than `end`.
abbrev pub Fits : ℕ → ℕ → Option Bucket → Type 0
Fits n end none = Unit
Fits n end (some b) = (b.tokens ≤ burst n) × (b.last ≤ end)

requests-admitted_first :
    (l : Limiter) (device : Bytes) (n t : ℕ) (ts : List ℕ)
    → 0 < n
    → requests l device n (t ∷ ts) ≡ admitted n (bucket_of n t (lookup device l)) (t ∷ ts)
requests-admitted_first l device n t ts p =
    let b = bucket_of n t (lookup device l) in
    rw (
      allow-spend l device n t p,
      allow_at-answer l device (spend n t b),
      requests-admitted (allow_at l device (spend n t b)).1 device n (spend n t b).1 ts p
          (allow_at-lookup l device (spend n t b)),
    )

bucket_of-Fits :
    (n t end : ℕ) (o : Option Bucket)
    → t ≤ end
    → Fits n end o
    → ((bucket_of n t o).tokens ≤ burst n) × ((bucket_of n t o).last ≤ end)
bucket_of-Fits n t end none h f = omega arith
bucket_of-Fits n t end (some b) h f = f

window_form :
    (a n start end : ℕ)
    → start ≤ end
    → a * unit + n * start ≤ burst n + n * end
    → a * unit ≤ n * (unit + (end - start))
window_form a n start end s h = omega (arith, mul_sub n start end s)

-- Requests of one device with a limit of n > 0 a minute, all made from start to end, by a limiter whose
-- bucket for it, if there is one, holds at most n tokens and was last used before end: at most n get
-- through, and n more for each minute from start to end, in whatever order the calls see the clock.
pub requests_window :
    (l : Limiter) (device : Bytes) (n start end : ℕ) (ts : List ℕ)
    → 0 < n
    → Fits n end (lookup device l)
    → start ≤ end
    → All (λ t. (start ≤ t) × (t ≤ end)) ts
    → requests l device n ts * unit ≤ n * (unit + (end - start))
requests_window l device n start end [] p f s h = omega arith
requests_window l device n start end (t ∷ ts) p f s h =
    let (c, b) = bucket_of-Fits n t end (lookup device l) h.0.1 f in
    rw (requests-admitted_first l device n t ts p) (
      window_form _ n start end s
        (admitted_window n start end (bucket_of n t (lookup device l)) (t ∷ ts) c b s h))

-- The limiter's own steps keep such a bucket.
pub allow-Fits :
    (l : Limiter) (device : Bytes) (n t end : ℕ)
    → 0 < n
    → t ≤ end
    → Fits n end (lookup device l)
    → Fits n end (lookup device (allow l device (pos n) t).1)
allow-Fits l device n t end p h f =
    let o = lookup device l in
    let (c, b) = bucket_of-Fits n t end o h f in
    rw (allow-spend l device n t p, allow_at-lookup l device (spend n t (bucket_of n t o)))
      (
        omega (arith, spend_capped n t (bucket_of n t o) c),
        spend_last-le n t end (bucket_of n t o) b h,
      )

-- A device with a limit of n > 0 a minute is let through at a time at which, since its bucket was last
-- used, the time of one token has passed.
pub allow_after_wait :
    (l : Limiter) (device : Bytes) (n t : ℕ) (b : Bucket)
    → 0 < n
    → lookup device l ≡ some b
    → unit + n * b.last ≤ n * t
    → (allow l device (pos n) t).0 ≡ true
allow_after_wait l device n t b p e w =
    rw (allow-spend l device n t p, e, allow_at-answer l device (spend n t b))
      (spend_after_wait n t b p w)
