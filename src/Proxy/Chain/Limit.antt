-- ===== src/Proxy/Chain/Limit.antt =====
-- The rate limit, seen from the upstream.
use cc_mysub.Base.{
  ℕ, ◌+◌, ◌-◌, ◌*◌, ◌≤◌, ◌<◌, Bytes, Bool, true, false, not, ◌&&◌, is_empty, lookup, All, List, [],
  ◌∷◌, Option, none, some, Bool-cases, length, length-append, pos, ◌≡◌, inl, inr, refl, and-true,
  sym, ap, ◌∙◌, arith, if◌then◌else◌,
}
use cc_mysub.Auth.Token.{has_inbound_credential}
use cc_mysub.Auth.Store.{Device}
use cc_mysub.Config.{Upstream, pick_token}
use cc_mysub.RateLimit.{unit, Limiter, allow}
use cc_mysub.RateLimit.Window.{requests, Fits, requests_window}
use cc_mysub.Proxy.Usage.{Usage}
use cc_mysub.Proxy.Chain.{
  Request, Context, Response, Net, World, is_exempt, label_of, per_minute_of, limited,
  rate_limit_by_device, access_log, forward_swap, default_per_minute, with_device, swap_token,
  serve,
}
use cc_mysub.Proxy.Chain.Traces.{serve_effects}
use cc_mysub.Proxy.Chain.Effects.{inner, serve_anonymous, serve_credential, serve_identified}

not-true : (b : Bool) → not b ≡ true → b ≡ false
not-true true h = sym h
not-true false h = refl

module _ (up : Upstream) (net : Net) (usage : Response → Usage) (ctx : Context) where
  -- Requests of one connection, with the times at which they come.
  abbrev pub serve_all : List (ℕ × Request) → World → World
  serve_all [] w = w
  serve_all ((t, r) ∷ rs) w = serve_all rs (serve up net usage t ctx r w).0

  identified : Option Device → Bool
  identified none = false
  identified (some d) = not (is_empty d.label) && not (is_empty (pick_token up d.upstream))

  -- Whether conditionalAuth passes the request on.
  abbrev passes : Request → Bool
  passes r = if has_inbound_credential r.header then identified ctx.device else true

  -- The times of the requests that come to the limiter.
  abbrev reaching : List (ℕ × Request) → List ℕ
  reaching [] = []
  reaching ((t, r) ∷ rs) = let rest = reaching rs in if passes r then t ∷ rest else rest

  inner_step :
      (t : ℕ) (real : Option Bytes) (r : Request) (w : World)
      → is_exempt r.path ≡ false
      → let a =
          allow w.limiter (label_of ctx.device) (per_minute_of default_per_minute ctx.device) t in
        let w' = (inner net usage t (record ctx { real_token = real }) r w).0 in
        (length w'.sent ≡ (if a.0 then 1 else 0) + length w.sent) × (w'.limiter ≡ a.1)
  unfolding rate_limit_by_device
  inner_step t real r w x = rw x (
      limited_step
        (allow w.limiter (label_of ctx.device) (per_minute_of default_per_minute ctx.device) t))
    where
      limited_step :
          (a : Bool × Limiter)
          → let w' =
              (limited
                (access_log usage (forward_swap net))
                (record ctx { real_token = real })
                r
                w
                a).0 in
            (length w'.sent ≡ (if a.0 then 1 else 0) + length w.sent) × (w'.limiter ≡ a.1)
      limited_step (true, l) = unfold access_log forward_swap in (omega arith, refl)
      limited_step (false, l) = (omega arith, refl)

  -- The device's limit, or the default.
  abbrev asked : World → ℕ → Bool × Limiter
  asked w t = allow w.limiter (label_of ctx.device) (per_minute_of default_per_minute ctx.device) t

  -- The limiter's answer, and one more request upstream if it lets the request through.
  abbrev Steps : ℕ → World → World × Response → Type 0
  Steps t w (w', resp) =
      (length w'.sent ≡ (if (asked w t).0 then 1 else 0) + length w.sent)
      × (w'.limiter ≡ (asked w t).1)

  device_step :
      (t : ℕ) (r : Request) (w : World) (o : Option Device)
      → ctx.device ≡ o
      → has_inbound_credential r.header ≡ true
      → identified o ≡ true
      → is_exempt r.path ≡ false
      → Steps t w (serve up net usage t ctx r w)
  unfolding identified
  device_step t r w none e a i x = cc
  device_step t r w (some d) e a i x =
      let (l, p) =
        and-true (not (is_empty d.label)) (not (is_empty (pick_token up d.upstream))) i in
      rw (serve_identified up net usage t ctx r w d a e (not-true _ l) (not-true _ p))
        (inner_step t (some (pick_token up d.upstream)) r w x)

  serve_step :
      (t : ℕ) (r : Request) (w : World)
      → passes r ≡ true
      → is_exempt r.path ≡ false
      → Steps t w (serve up net usage t ctx r w)
  serve_step t r w p x = elim (Bool-cases (has_inbound_credential r.header)) [
    | inr a ↦ rw (serve_anonymous up net usage t ctx r w a) (inner_step t ctx.real_token r w x)
    | inl a ↦ device_step t r w ctx.device refl a (rw a at p) x
  ]

  device_blocked :
      (t : ℕ) (r : Request) (w : World) (o : Option Device)
      → identified o ≡ false
      → (with_device up (inner net usage t) ctx r w o).0 ≡ w
  unfolding identified with_device
  device_blocked t r w none i = refl
  device_blocked t r w (some d) i = elim (Bool-cases (is_empty d.label)) [
    | inl b ↦ rw b refl
    | inr b ↦ elim (Bool-cases (is_empty (pick_token up d.upstream))) [
      | inl c ↦ rw (b, swap_token, c) refl
      | inr c ↦ cc (rw (b, c) at i)
    ]
  ]

  serve_blocked :
      (t : ℕ) (r : Request) (w : World) → passes r ≡ false → (serve up net usage t ctx r w).0 ≡ w
  serve_blocked t r w p = elim (Bool-cases (has_inbound_credential r.header)) [
    | inr a ↦ cc (rw a at p)
    | inl a ↦
        rw (serve_credential up net usage t ctx r w a) (device_blocked t r w ctx.device (rw a at p))
  ]

  abbrev IsCounted : ℕ × Request → Type 0
  IsCounted (t, r) = is_exempt r.path ≡ false

  serve_all-sent :
      (n : ℕ) (rs : List (ℕ × Request)) (w : World)
      → per_minute_of default_per_minute ctx.device ≡ pos n
      → All IsCounted rs
      → length (serve_all rs w).sent
        ≡ requests w.limiter (label_of ctx.device) n (reaching rs) + length w.sent
  serve_all-sent n [] w e h = omega arith
  serve_all-sent n ((t, r) ∷ rs) w e (x, h) = elim (Bool-cases (passes r)) [
    | inl p ↦
        let (sent, l) = serve_step t r w p x in
        rw (p, serve_all-sent n rs (serve up net usage t ctx r w).0 e h, sent, l, e) (omega arith)
    | inr p ↦
        ap (λ w'. length (serve_all rs w').sent) (serve_blocked t r w p)
        ∙ rw p (serve_all-sent n rs w e h)
  ]

  -- At most three attempts for each request given to the transport.
  abbrev Tripled : World → World → Type 0
  Tripled w w' = length w'.attempts + 3 * length w.sent ≤ length w.attempts + 3 * length w'.sent

  serve-Tripled : (t : ℕ) (r : Request) (w : World) → Tripled w (serve up net usage t ctx r w).0
  serve-Tripled t r w = elim (serve_effects up net usage t ctx r w) [
    | inl (f, s, a, l) ↦ rw (s, a) (omega arith)
    | inr (out, tries, s, a, (k, g, b, o), x, l) ↦
        rw (s, a) (omega (arith, length-append tries w.attempts, b))
  ]

  serve_all-Tripled : (rs : List (ℕ × Request)) (w : World) → Tripled w (serve_all rs w)
  serve_all-Tripled [] w = omega arith
  serve_all-Tripled ((t, r) ∷ rs) w =
      let w' = (serve up net usage t ctx r w).0 in
      omega (arith, serve-Tripled t r w, serve_all-Tripled rs w')

  abbrev Between : ℕ → ℕ → ℕ × Request → Type 0
  Between start end (t, r) = (start ≤ t) × (t ≤ end)

  reaching-All :
      (start end : ℕ) (rs : List (ℕ × Request))
      → All (Between start end) rs
      → All (λ t. (start ≤ t) × (t ≤ end)) (reaching rs)
  reaching-All start end [] h = h
  reaching-All start end ((t, r) ∷ rs) (b, h) = elim (Bool-cases (passes r)) [
    | inl p ↦ rw p (b, reaching-All start end rs h)
    | inr p ↦ rw p (reaching-All start end rs h)
  ]

  -- Requests of one connection, none of an exempt path, anonymous ones included, are served one after
  -- the other between two times, start and end, by a proxy whose bucket for the device, if there is
  -- one, holds at most n tokens and was last used before end, n > 0 being the device's limit or the
  -- default: of them at most n, and n more for each minute from start to end, are given to the
  -- transport to be sent upstream; and the attempts that retryTransport makes for them are at most
  -- three times as many.
  pub sent_window :
      (n start end : ℕ) (rs : List (ℕ × Request)) (w : World)
      → per_minute_of default_per_minute ctx.device ≡ pos n
      → 0 < n
      → Fits n end (lookup (label_of ctx.device) w.limiter)
      → start ≤ end
      → All (λ (q : ℕ × Request). is_exempt q.1.path ≡ false) rs
      → All (λ (q : ℕ × Request). (start ≤ q.0) × (q.0 ≤ end)) rs
      → (length (serve_all rs w).sent * unit ≤ length w.sent * unit + n * (unit + (end - start)))
        × (length (serve_all rs w).attempts * unit
            ≤ length w.attempts * unit + 3 * (n * (unit + (end - start))))
  sent_window n start end rs w e p f s x h =
      let sent : length (serve_all rs w).sent * unit
          ≤ length w.sent * unit + n * (unit + (end - start)) =
        omega (
          arith,
          serve_all-sent n rs w e x,
          requests_window w.limiter (label_of ctx.device) n start end (reaching rs) p f s
              (reaching-All start end rs h),
        ) in
      (sent, omega (arith, sent, serve_all-Tripled rs w))
