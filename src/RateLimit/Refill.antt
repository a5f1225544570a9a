-- ===== src/RateLimit/Refill.antt =====
-- One call on one bucket.
use cc_mysub.Base.{ℕ, ◌+◌, ◌-◌, ◌*◌, ◌≤◌, ◌<◌, Bool, true, false, ◌≡◌, arith}
use cc_mysub.RateLimit.{unit, Bucket, burst, refill, take_token}

abbrev pub spend : ℕ → ℕ → Bucket → Bool × Bucket
spend n now b = take_token (refill n now b)

-- What the answer costs.
abbrev pub cost : Bool → ℕ
cost true = unit
cost false = 0

mul_elapsed : (n a b : ℕ) → a ≤ b → (b - a) * n + n * a ≡ n * b
mul_elapsed n a b h = grind arith

wait_newer : (n a b : ℕ) → unit + n * a ≤ n * b → a < b
wait_newer n a b h = grind arith

refill_balance :
    (n now : ℕ) (b : Bucket)
    → (refill n now b).tokens + n * b.last ≤ b.tokens + n * (refill n now b).last
unfolding refill
refill_balance n now b = ground (arith, λ (h : b.last ≤ now). mul_elapsed n b.last now h)

refill_capped : (n now : ℕ) (b : Bucket) → b.tokens ≤ burst n → (refill n now b).tokens ≤ burst n
unfolding refill
refill_capped n now b h = ground arith

refill_last :
    (n now : ℕ) (b : Bucket) → (b.last ≤ (refill n now b).last) × (now ≤ (refill n now b).last)
unfolding refill
refill_last n now b = ground arith

refill_last-le : (n now t : ℕ) (b : Bucket) → b.last ≤ t → now ≤ t → (refill n now b).last ≤ t
unfolding refill
refill_last-le n now t b h k = ground arith

refill_wait :
    (n now : ℕ) (b : Bucket) → 0 < n → unit + n * b.last ≤ n * now → unit ≤ (refill n now b).tokens
unfolding refill
refill_wait n now b p h =
    ground (arith, wait_newer n b.last now h, λ (k : b.last ≤ now). mul_elapsed n b.last now k)

take_token_balance :
    (b : Bucket)
    → (cost (take_token b).0 + (take_token b).1.tokens ≡ b.tokens)
      × ((take_token b).1.last ≡ b.last)
unfolding take_token
take_token_balance b = ground arith

take_token_enough : (b : Bucket) → unit ≤ b.tokens → (take_token b).0 ≡ true
unfolding take_token
take_token_enough b h = ground arith

-- Parts spent and left never exceed those there were and those the time brought; the clock of the
-- bucket does not go back, and stays before the time of the call or where it was.
pub spend_balance :
    (n now : ℕ) (b : Bucket)
    → cost (spend n now b).0 + (spend n now b).1.tokens + n * b.last
      ≤ b.tokens + n * (spend n now b).1.last
spend_balance n now b =
    rw (take_token_balance (refill n now b)).1
      (omega (arith, refill_balance n now b, take_token_balance (refill n now b)))

pub spend_capped :
    (n now : ℕ) (b : Bucket)
    → b.tokens ≤ burst n
    → cost (spend n now b).0 + (spend n now b).1.tokens ≤ burst n
spend_capped n now b h = omega (arith, refill_capped n now b h, take_token_balance (refill n now b))

pub spend_last :
    (n now : ℕ) (b : Bucket) → (b.last ≤ (spend n now b).1.last) × (now ≤ (spend n now b).1.last)
spend_last n now b = omega (arith, refill_last n now b, take_token_balance (refill n now b))

pub spend_last-le : (n now t : ℕ) (b : Bucket) → b.last ≤ t → now ≤ t → (spend n now b).1.last ≤ t
spend_last-le n now t b h k =
    omega (arith, refill_last-le n now t b h k, take_token_balance (refill n now b))

-- Whoever waits for the time of one token is let through.
pub spend_after_wait :
    (n now : ℕ) (b : Bucket) → 0 < n → unit + n * b.last ≤ n * now → (spend n now b).0 ≡ true
spend_after_wait n now b p h = take_token_enough _ (refill_wait n now b p h)
