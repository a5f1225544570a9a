-- ===== src/RateLimit.antt =====
-- internal/ratelimit/bucket.go. The source keeps a bucket's tokens as a float64. Here they are counted
-- exactly, in parts of which `unit` make one token: an elapsed nanosecond at `n` tokens a minute adds
-- n parts. Times are nanoseconds; the lock makes each call of Allow one step.
pub mod Refill
pub mod Window
pub mod Isolation
use cc_mysub.Base.{
  ℕ, ◌+◌, ◌-◌, ◌*◌, Bytes, Bool, true, false, ltb, leb, Dict, lookup, insert, Option, none, some,
  [], ℤ, pos, negsuc, pos_part, is_positive, if◌then◌else◌,
}

-- 60 s in nanoseconds.
abbrev pub unit : ℕ
unit = 60_000_000_000

pub record Bucket : Type 0 where
  pub tokens : ℕ
  pub last : ℕ

-- The map from devices to buckets; the clock is an argument of each call.
abbrev pub Limiter : Type 0
Limiter = Dict Bucket

abbrev pub new_limiter : Limiter
new_limiter = []

abbrev pub burst : ℕ → ℕ
burst per_minute = per_minute * unit

-- A missing bucket starts full.
abbrev pub bucket_of : ℕ → ℕ → Option Bucket → Bucket
bucket_of per_minute now none = record { tokens = burst per_minute; last = now }
bucket_of per_minute now (some b) = b

-- The tokens for the time since the last call, up to the burst; a clock that stands or goes back
-- changes nothing.
unfoldable pub refill : ℕ → ℕ → Bucket → Bucket
refill per_minute now b =
    if ltb b.last now
    then (let more = b.tokens + (now - b.last) * per_minute in
        record {
          tokens = (if ltb (burst per_minute) more then burst per_minute else more);
          last = now;
        })
    else b

-- One token for one request.
unfoldable pub take_token : Bucket → Bool × Bucket
take_token b =
    if leb unit b.tokens then (true, record b { tokens = b.tokens - unit }) else (false, b)

allow_at : Limiter → Bytes → Bool × Bucket → Bool × Limiter
unfolding insert
allow_at l device (answer, b) = (answer, insert device b l)

unfoldable pub allow : Limiter → Bytes → ℤ → ℕ → Bool × Limiter
unfolding lookup refill take_token allow_at is_positive
allow l device per_minute now =
    if is_positive per_minute
    then (let n = pos_part per_minute in
        allow_at l device (take_token (refill n now (bucket_of n now (lookup device l)))))
    else (true, l)
