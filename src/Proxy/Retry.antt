-- ===== src/Proxy/Retry.antt =====
-- internal/proxy/transport.go: retries of the upstream request where the network fails. The transport
-- below is a parameter: what it answers to the n-th attempt, and how much of the body it reads.
pub mod Attempts
use cc_mysub.Base.{
  ◌==◌, if◌then◌else◌, ℕ, zero, suc, ◌+◌, Bytes, Bool, true, false, List, [], ◌∷◌, Option, none,
  some, drop,
}

-- http.Request's body: none (or http.NoBody), or a stream that an attempt uses up, with GetBody, if
-- there is one, and what that gives.
pub record Stream : Type 0 where
  pub bytes : Bytes
  pub get_body : Option (Option Bytes)

abbrev pub Body : Type 0
Body = Option Stream

-- The error of an attempt is `none`; `sent` are the bodies of the attempts, newest first.
pub record Outcome (R : Type 0) : Type 0 where
  pub answer : Option R
  pub sent : List Body

again : Stream → Option (Option Bytes) → Option Body
again s none = none
again s (some none) = none
again s (some (some b)) = some (some (record s { bytes = b }))

-- The body for another attempt, if it can be replayed.
unfoldable pub replay : Body → Option Body
unfolding again
replay none = some none
replay (some s) = again s s.get_body

given : {R : Type 0} → List Body → (Body → Outcome R) → Option Body → Outcome R
given sent next none = record { answer = none; sent = sent }
given sent next (some b) = next b

unless_answered : {R : Type 0} → List Body → Outcome R → Option R → Outcome R
unless_answered sent rest none = rest
unless_answered sent rest (some r) = record { answer = some r; sent = sent }

-- What an attempt leaves of the body.
abbrev pub used : ℕ → Body → Body
used n none = none
used n (some s) = some (record s { bytes = drop n s.bytes })

-- The transport below: its answer to an attempt, and how many bytes of the body it has read by then.
abbrev pub Base : Type 0 → Type 0
Base R = ℕ → Body → Option R × ℕ

-- The loop over the delays that are left.
unfoldable pub attempts : {R : Type 0} → Base R → ℕ → List ℕ → Body → List Body → Outcome R
unfolding given unless_answered replay
attempts base i [] body sent = record { answer = none; sent = sent }
attempts base i (d ∷ ds) body sent =
    given sent
      (λ b.
        unless_answered (b ∷ sent) (attempts base (suc i) ds (used (base i b).1 b) (b ∷ sent))
          (base i b).0)
      (if i == 0 then some body else replay body)

-- RoundTrip
unfoldable pub round_trip : {R : Type 0} → Base R → List ℕ → Body → Outcome R
unfolding attempts
round_trip base delays body = attempts base 0 delays body []
