-- ===== src/Proxy/Retry/Attempts.antt =====
-- The attempts of retryTransport.
use cc_mysub.Base.{
  ℕ, suc, drop, ◌<◌, ◌+◌, ◌≤◌, Bytes, Bool, false, ◌==◌, length, All, List, [], ◌∷◌, Option, none,
  some, Option-cases, ◌≡◌, ◌⊎◌, inl, inr, refl, ap, ◌∙◌, arith, if◌then◌else◌,
}
use cc_mysub.Proxy.Retry.{
  Stream, Body, Base, Outcome, used, again, replay, given, unless_answered, attempts, round_trip,
}

-- GetBody, where there is one and it works, gives the bytes of the body.
abbrev pub IsFaithful : Body → Type 0
IsFaithful none = Unit
IsFaithful (some s) =
    (s.get_body ≡ none) ⊎ (s.get_body ≡ some none) ⊎ (s.get_body ≡ some (some s.bytes))

again-same :
    (s : Stream) (o : Option (Option Bytes)) (b : Body)
    → (o ≡ none) ⊎ (o ≡ some none) ⊎ (o ≡ some (some s.bytes))
    → again s o ≡ some b
    → b ≡ some s
unfolding again
again-same s none b f e = cc
again-same s (some none) b f e = cc
again-same s (some (some x)) b (inl f) e = cc
again-same s (some (some x)) b (inr (inl f)) e = cc
again-same s (some (some x)) b (inr (inr f)) e = cc

replay-same : (body b : Body) → IsFaithful body → replay body ≡ some b → b ≡ body
unfolding replay
replay-same none b f e = cc
replay-same (some s) b f e = again-same s s.get_body b f e

replay-none : (s : Stream) → (s.get_body ≡ none) ⊎ (s.get_body ≡ some none) → replay (some s) ≡ none
unfolding replay
replay-none s (inl g) = ap (again s) g
replay-none s (inr g) = ap (again s) g

-- GetBody does not look at what is left.
again-used :
    (n : ℕ) (s : Stream) (o : Option (Option Bytes))
    → again (record s { bytes = drop n s.bytes }) o ≡ again s o
unfolding again
again-used n s none = refl
again-used n s (some none) = refl
again-used n s (some (some b)) = refl

replay-used : (n : ℕ) (body : Body) → replay (used n body) ≡ replay body
unfolding replay
replay-used n none = refl
replay-used n (some s) = again-used n s s.get_body

-- The body that the next attempt would be given.
abbrev pub next_body : Bool → Body → Option Body
next_body first body = if first then some body else replay body

-- None, or the request's own.
abbrev pub Fresh : Bool → Body → Body → Type 0
Fresh first body cur = (next_body first cur ≡ none) ⊎ (next_body first cur ≡ some body)

used-Fresh : (n : ℕ) (body : Body) → IsFaithful body → Fresh false body (used n body)
used-Fresh n body f = elim (Option-cases (replay body)) [
  | inl e ↦ inl (replay-used n body ∙ e)
  | inr (b, e) ↦ inr (replay-used n body ∙ e ∙ ap (λ x. some x) (replay-same body b f e))
]

suc-zero : (i : ℕ) → (suc i == 0) ≡ false
suc-zero i = ground arith

module _ {R : Type 0} (base : Base R) where
  -- What a run of n more attempts adds to those before.
  abbrev Bounded : ℕ → Body → List Body → Outcome R → Type 0
  Bounded n body sent out = (length out.sent ≤ n + length sent) × All (λ b. b ≡ body) out.sent

  unless_answered-Bounded :
      (n : ℕ) (body b : Body) (sent : List Body) (rest : Outcome R) (o : Option R)
      → All (λ c. c ≡ body) (b ∷ sent)
      → Bounded n body (b ∷ sent) rest
      → Bounded (suc n) body sent (unless_answered (b ∷ sent) rest o)
  unfolding unless_answered
  unless_answered-Bounded n body b sent rest none h (l, k) = (omega arith, k)
  unless_answered-Bounded n body b sent rest (some r) h k = (omega arith, h)

  attempts-Bounded :
      (i : ℕ) (ds : List ℕ) (body cur : Body) (sent : List Body)
      → IsFaithful body
      → Fresh (i == 0) body cur
      → All (λ b. b ≡ body) sent
      → Bounded (length ds) body sent (attempts base i ds cur sent)
  unfolding attempts
  attempts-Bounded i [] body cur sent f c h = (omega arith, h)
  attempts-Bounded i (d ∷ ds) body cur sent f (inl e) h = rw (e, given) (omega arith, h)
  attempts-Bounded i (d ∷ ds) body cur sent f (inr e) h =
      let n = (base i body).1 in
      let fresh : Fresh (suc i == 0) body (used n body) = rw (suc-zero i) (used-Fresh n body f) in
      rw (e, given)
        (unless_answered-Bounded (length ds) body body sent _ (base i body).0 (refl, h)
          (attempts-Bounded (suc i) ds body (used n body) (body ∷ sent) f fresh (refl, h)))

  -- Whatever an attempt reads of the body: if GetBody is absent, fails, or gives the bytes of the body,
  -- at most as many attempts are made as there are delays, and every attempt is given the request's
  -- whole body.
  pub round_trip-bodies :
      (delays : List ℕ) (body : Body)
      → IsFaithful body
      → (length (round_trip base delays body).sent ≤ length delays)
        × All (λ b. b ≡ body) (round_trip base delays body).sent
  unfolding round_trip
  round_trip-bodies delays body f =
      let (l, k) = attempts-Bounded 0 delays body body [] f (inr refl) tt in (omega arith, k)

  -- The attempts after one that failed.
  attempts_more :
      (i : ℕ) (ds : List ℕ) (cur : Body) (sent : List Body)
      → length sent ≤ length (attempts base i ds cur sent).sent
  unfolding attempts
  attempts_more i [] cur sent = omega arith
  attempts_more i (d ∷ ds) cur sent = elim (Option-cases (next_body (i == 0) cur)) [
    | inl e ↦ rw (e, given) (omega arith)
    | inr (b, e) ↦
        let m = attempts_more (suc i) ds (used (base i b).1 b) (b ∷ sent) in
        elim (Option-cases (base i b).0) [
          | inl g ↦ rw (e, given, g, unless_answered) (omega arith)
          | inr (r, g) ↦ rw (e, given, g, unless_answered) (omega arith)
        ]
  ]

  -- With a delay there is an attempt.
  pub round_trip_some :
      (d : ℕ) (ds : List ℕ) (body : Body) → 0 < length (round_trip base (d ∷ ds) body).sent
  unfolding round_trip attempts
  round_trip_some d ds body =
      let m = attempts_more 1 ds (used (base 0 body).1 body) (body ∷ []) in
      elim (Option-cases (base 0 body).0) [
        | inl g ↦ rw (given, g, unless_answered) (omega arith)
        | inr (r, g) ↦ rw (given, g, unless_answered) (omega arith)
      ]

  -- With at least one delay, a body that has no GetBody, or one that fails, is sent exactly once, and
  -- the outcome is that of this attempt.
  pub round_trip_once :
      (d : ℕ) (ds : List ℕ) (s : Stream)
      → (s.get_body ≡ none) ⊎ (s.get_body ≡ some none)
      → round_trip base (d ∷ ds) (some s)
        ≡ record { answer = (base 0 (some s)).0; sent = some s ∷ [] }
  unfolding round_trip attempts
  round_trip_once d ds s h = elim (Option-cases (base 0 (some s)).0) [
    | inr (r, e) ↦ rw (e, given, unless_answered) refl
    | inl e ↦ rw (e, given, unless_answered) (stops ds h)
  ]
    where
      stops :
          (xs : List ℕ)
          → (s.get_body ≡ none) ⊎ (s.get_body ≡ some none)
          → attempts base 1 xs (used (base 0 (some s)).1 (some s)) (some s ∷ [])
            ≡ record { answer = none; sent = some s ∷ [] }
      stops [] g = refl
      stops (x ∷ xs) g = rw (replay-used (base 0 (some s)).1 (some s) ∙ replay-none s g, given) refl
