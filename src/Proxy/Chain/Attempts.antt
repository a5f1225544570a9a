-- ===== src/Proxy/Chain/Attempts.antt =====
-- What retryTransport makes of a request that forwardSwap gives it.
use cc_mysub.Base.{
  suc, ◌≤◌, ◌<◌, Bytes, length, map, All, List, [], ◌∷◌, Option, none, some, ◌≡◌, ◌⊎◌, inl, inr,
  refl, ap, ◌∙◌, arith,
}
use cc_mysub.Proxy.Retry.{Body, Base, Outcome, round_trip}
use cc_mysub.Proxy.Retry.Attempts.{IsFaithful, round_trip-bodies, round_trip_some, round_trip_once}
use cc_mysub.Proxy.Chain.{
  Response, Outbound, Net, stream_of, bytes_of, with_body, retry_delays, transport,
}

-- The attempts for a request: the request each time, from one to three times, but once if it has a
-- body.
abbrev pub IsTried : Outbound → List Outbound → Type 0
IsTried out tries =
    All (λ o. o ≡ out) tries
    × (0 < length tries)
    × (length tries ≤ 3)
    × ((out.body ≡ none) ⊎ (length tries ≡ 1))

bytes_of-stream_of : (b : Option Bytes) → bytes_of (stream_of b) ≡ b
bytes_of-stream_of none = refl
bytes_of-stream_of (some b) = refl

stream_of-IsFaithful : (b : Option Bytes) → IsFaithful (stream_of b)
stream_of-IsFaithful none = tt
stream_of-IsFaithful (some b) = inl refl

same_request : (out : Outbound) (b : Body) → b ≡ stream_of out.body → with_body out b ≡ out
same_request out b e =
    ap (λ x. record out { body = x }) (ap bytes_of e ∙ bytes_of-stream_of out.body)

same_requests :
    (out : Outbound) (bs : List Body)
    → All (λ b. b ≡ stream_of out.body) bs
    → All (λ o. o ≡ out) (map (with_body out) bs)
same_requests out [] h = tt
same_requests out (b ∷ bs) (e, h) = (same_request out b e, same_requests out bs h)

length-map : (out : Outbound) (bs : List Body) → length (map (with_body out) bs) ≡ length bs
length-map out [] = refl
length-map out (b ∷ bs) = ap (λ n. suc n) (length-map out bs)

body_once :
    (base : Base Response) (b : Option Bytes)
    → (b ≡ none) ⊎ (length (round_trip base retry_delays (stream_of b)).sent ≡ 1)
body_once base none = inl refl
body_once base (some b) = inr (
    ap (λ (o : Outcome Response). length o.sent)
      (round_trip_once base 0 (200 ∷ 600 ∷ []) (record { bytes = b; get_body = none }) (inl refl)))

pub transport-IsTried :
    (net : Net) (out : Outbound) → IsTried out (map (with_body out) (transport net out).sent)
unfolding transport
transport-IsTried net out =
    let base : Base Response = λ i b. net.attempt i (with_body out b) in
    let body = stream_of out.body in
    let (bound, same) = round_trip-bodies base retry_delays body (stream_of-IsFaithful out.body) in
    let one = round_trip_some base 0 (200 ∷ 600 ∷ []) body in
    let n = length-map out (round_trip base retry_delays body).sent in
    (
      same_requests out _ same,
      omega (arith, n, one),
      omega (arith, n, bound),
      elim (body_once base out.body) [ inl e ↦ inl e | inr e ↦ inr (n ∙ e) ],
    )
