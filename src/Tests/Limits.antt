-- ===== src/Tests/Limits.antt =====
-- Tests of the limits: requests a minute, connections, retries, and the copy of an answer.
use cc_mysub.Base.{
  equal, ◌==◌, if◌then◌else◌, lookup, ℕ, ◌≤◌, Bytes, codes, All, length, List, [], ◌∷◌, none, some,
  ◌≡◌, inr, refl, pos, arith, ◌*◌, ◌+◌, ◌-◌,
}
use cc_mysub.RateLimit.{unit, Limiter, allow}
use cc_mysub.RateLimit.Window.{Fits, requests, requests_window}
use cc_mysub.RateLimit.Isolation.{answers, only, answers-only}
use cc_mysub.RateLimit.Isolation
use cc_mysub.Proxy.Serve.{Server, new_server, accept_conn, accepts, Reachable, start, step}
use cc_mysub.Proxy.Serve.Slots
use cc_mysub.Proxy.Serve.Slots.{Reachable-IsValid, accept_conn-shed}
use cc_mysub.Proxy.Retry.{Base, Stream, round_trip}
use cc_mysub.Proxy.Retry.Attempts.{round_trip-bodies}
use cc_mysub.Proxy.Capture.{read_from, write_header, new_capture}
use cc_mysub.Proxy.Capture.Tee.{IsCopy, flatten, read_from-new_capture}

abbrev dev : Bytes
dev = codes "laptop"

-- A bucket from which two requests were taken at time 0.
abbrev used : Limiter
used = (dev, record { tokens = 0; last = 0 }) ∷ []

used_bucket : lookup dev used ≡ some (record { tokens = 0; last = 0 })
unfolding lookup equal
used_bucket = refl

used-Fits : Fits 2 (2 * unit) (lookup dev used)
used-Fits = rw used_bucket (omega arith, omega arith)

abbrev times : List ℕ
times = 1 ∷ unit ∷ (unit + 5) ∷ []

requests_window_example : requests used dev 2 times * unit ≤ 2 * (unit + (2 * unit - 1))
requests_window_example =
    requests_window used dev 2 1 (2 * unit) times (omega arith) used-Fits (omega arith)
      ((omega arith, omega arith), ((omega arith, omega arith), ((omega arith, omega arith), tt)))

-- Two tokens came in within the minute.
requests_test : requests used dev 2 times ≡ 2
unfolding allow equal
requests_test = refl

abbrev mixed : List Isolation.Request
mixed =
    record { device = dev; per_minute = pos 1; now = 3 }
    ∷ record { device = codes "phone"; per_minute = pos 1; now = 4 }
    ∷ record { device = dev; per_minute = pos 1; now = 5 }
    ∷ []

answers-only_example : answers dev [] mixed ≡ answers dev [] (only dev mixed)
answers-only_example = answers-only dev [] mixed

abbrev one : Server
one = accept_conn (new_server 1) 7

one-Reachable : Reachable 1 one
one-Reachable = step (new_server 1) one start (accepts 7 refl)

Reachable-IsValid_example : Slots.IsValid 1 one
Reachable-IsValid_example = Reachable-IsValid 1 one one-Reachable

abbrev upload : Stream
upload = record { bytes = codes "body"; get_body = some (some (codes "body")) }

-- The network fails twice, each time behind two bytes of the body.
abbrev base : Base ℕ
base i b = (if i == 2 then some 200 else none, 2)

round_trip-bodies_example :
    (length (round_trip base (0 ∷ 200 ∷ 600 ∷ []) (some upload)).sent ≤ 3)
    × All (λ b. b ≡ some upload) (round_trip base (0 ∷ 200 ∷ 600 ∷ []) (some upload)).sent
round_trip-bodies_example =
    round_trip-bodies base (0 ∷ 200 ∷ 600 ∷ []) (some upload) (inr (inr refl))

round_trip_test : (round_trip base (0 ∷ 200 ∷ 600 ∷ []) (some upload)).answer ≡ some 200
unfolding round_trip
round_trip_test = refl

abbrev pieces : List Bytes
pieces = codes "ab" ∷ [] ∷ codes "c" ∷ []

read_from-new_capture_example :
    ((read_from (write_header (new_capture []) 201) pieces).below.body ≡ flatten pieces)
    × IsCopy 2 (read_from (write_header (new_capture []) 201) pieces)
read_from-new_capture_example =
    read_from-new_capture 2 [] 201 pieces (omega arith, (omega arith, (omega arith, tt)))
