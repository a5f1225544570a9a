-- ===== src/Proxy/Chain/Effects.antt =====
-- What one request does: it is refused and leaves no trace upstream or in the access log, or it is
-- forwarded and logged once.
use cc_mysub.Base.{
  ℕ, Bool, true, false, is_empty, [], ◌∷◌, Option, none, some, Bool-cases, ◌≡◌, ◌≢◌, ◌⊎◌, inl, inr,
  refl, ap, ◌∙◌, map, ◌++◌, nonempty, is_empty-true, if◌then◌else◌,
}
use cc_mysub.Auth.Token.{has_inbound_credential}
use cc_mysub.Auth.Store.{Device}
use cc_mysub.Config.{Upstream, pick_token}
use cc_mysub.RateLimit.{Limiter, allow}
use cc_mysub.Proxy.Usage.{Usage}
use cc_mysub.Proxy.Chain.{
  Request, Context, Response, Net, World, Handler, no_device, no_upstream_token, rate_limited,
  swap_token, with_device, conditional_auth, is_exempt, label_of, per_minute_of, limited,
  rate_limit_by_device, record_of, access_log, rewrite, answered, forward_swap, default_per_minute,
  serve, transport, with_body, sending, logged,
}

-- Nothing is sent or logged, and this is the answer.
abbrev pub Refuses : World → Response → World × Response → Type 0
Refuses w resp (w', resp') =
    (w'.sent ≡ w.sent) × (w'.log ≡ w.log) × (resp' ≡ resp) × (w'.attempts ≡ w.attempts)

module _ (net : Net) (usage : Response → Usage) where
  -- The rewritten request is sent, in the attempts of the transport; its answer, or 502 if there is
  -- none, is given, and logged unless it broke off.
  abbrev pub Forwards : Context → Request → World → World × Response → Type 0
  Forwards ctx r w (w', resp) =
      (w'.sent ≡ rewrite net ctx r ∷ w.sent)
      × (resp ≡ answered (transport net (rewrite net ctx r)).answer)
      × (w'.log ≡ (if resp.aborted then w.log else record_of usage ctx r resp ∷ w.log))
      × (w'.attempts
          ≡ map (with_body (rewrite net ctx r)) (transport net (rewrite net ctx r)).sent
            ++ w.attempts)

  abbrev pub inner : ℕ → Handler
  inner now = rate_limit_by_device default_per_minute now (access_log usage (forward_swap net))

  log_forward_Forwards :
      (ctx : Context) (r : Request) (w w' : World)
      → w'.sent ≡ w.sent
      → w'.log ≡ w.log
      → w'.attempts ≡ w.attempts
      → Forwards ctx r w (access_log usage (forward_swap net) ctx r w')
  unfolding access_log forward_swap logged sending
  log_forward_Forwards ctx r w w' s l t = rw (s, l, t) (refl, refl, refl, refl)

  inner_cases :
      (now : ℕ) (ctx : Context) (r : Request) (w : World)
      → Refuses w rate_limited (inner now ctx r w) ⊎ Forwards ctx r w (inner now ctx r w)
  unfolding rate_limit_by_device
  inner_cases now ctx r w = elim (Bool-cases (is_exempt r.path)) [
    | inl e ↦ rw e (inr (log_forward_Forwards ctx r w w refl refl refl))
    | inr e ↦ rw e (
        limited_cases
          (allow w.limiter (label_of ctx.device) (per_minute_of default_per_minute ctx.device) now))
  ]
    where
      limited_cases :
          (a : Bool × Limiter)
          → Refuses w rate_limited (limited (access_log usage (forward_swap net)) ctx r w a)
            ⊎ Forwards ctx r w (limited (access_log usage (forward_swap net)) ctx r w a)
      limited_cases (true, l) =
          inr (log_forward_Forwards ctx r w (record w { limiter = l }) refl refl refl)
      limited_cases (false, l) = inl (refl, refl, refl, refl)

-- The outcomes of one request on the serving chain.
pub data Served (up : Upstream) (net : Net) (usage : Response → Usage) (ctx : Context) (r : Request)
    (w : World) (res : World × Response) : Type 0 where
  anonymous :
      has_inbound_credential r.header ≡ false
      → Refuses w rate_limited res ⊎ Forwards net usage ctx r w res
      → Served up net usage ctx r w res
  unidentified :
      has_inbound_credential r.header ≡ true
      → label_of ctx.device ≡ []
      → Refuses w no_device res
      → Served up net usage ctx r w res
  tokenless :
      (d : Device)
      → ctx.device ≡ some d
      → pick_token up d.upstream ≡ []
      → Refuses w no_upstream_token res
      → Served up net usage ctx r w res
  swapped :
      (d : Device)
      → has_inbound_credential r.header ≡ true
      → ctx.device ≡ some d
      → pick_token up d.upstream ≢ []
      → Refuses w rate_limited res
        ⊎ Forwards net usage (record ctx { real_token = some (pick_token up d.upstream) }) r w res
      → Served up net usage ctx r w res

module _ (up : Upstream) (net : Net) (usage : Response → Usage) (now : ℕ) (ctx : Context)
    (r : Request) (w : World) where
  identified_step :
      (d : Device)
      → is_empty d.label ≡ false
      → is_empty (pick_token up d.upstream) ≡ false
      → with_device up (inner net usage now) ctx r w (some d)
        ≡ inner net usage now (record ctx { real_token = some (pick_token up d.upstream) }) r w
  identified_step d l p = unfold with_device in rw (l, swap_token, p)

  pub serve_anonymous :
      has_inbound_credential r.header ≡ false
      → serve up net usage now ctx r w ≡ inner net usage now ctx r w
  serve_anonymous a = unfold serve conditional_auth in rw a

  pub serve_credential :
      has_inbound_credential r.header ≡ true
      → serve up net usage now ctx r w ≡ with_device up (inner net usage now) ctx r w ctx.device
  serve_credential a = unfold serve conditional_auth in rw a

  -- The request of a device with a token goes on with that token.
  pub serve_identified :
      (d : Device)
      → has_inbound_credential r.header ≡ true
      → ctx.device ≡ some d
      → is_empty d.label ≡ false
      → is_empty (pick_token up d.upstream) ≡ false
      → serve up net usage now ctx r w
        ≡ inner net usage now (record ctx { real_token = some (pick_token up d.upstream) }) r w
  serve_identified d a e l p =
      serve_credential a
      ∙ ap (with_device up (inner net usage now) ctx r w) e
      ∙ identified_step d l p

  with_device-Served :
      (o : Option Device)
      → has_inbound_credential r.header ≡ true
      → ctx.device ≡ o
      → Served up net usage ctx r w (with_device up (inner net usage now) ctx r w o)
  unfolding with_device
  with_device-Served none a e = unidentified a (ap label_of e) (refl, refl, refl, refl)
  with_device-Served (some d) a e = elim (Bool-cases (is_empty d.label)) [
    | inl b ↦
        rw b (unidentified a (ap label_of e ∙ is_empty-true d.label b) (refl, refl, refl, refl))
    | inr b ↦ elim (Bool-cases (is_empty (pick_token up d.upstream))) [
      | inl c ↦
          rw (b, swap_token, c)
            (tokenless d e (is_empty-true (pick_token up d.upstream) c) (refl, refl, refl, refl))
      | inr c ↦
          rw (b, swap_token, c)
            (swapped d a e (nonempty (pick_token up d.upstream) c) (
              inner_cases net usage now
                (record ctx { real_token = some (pick_token up d.upstream) }) r w))
    ]
  ]

  -- Every request is handled in one of these ways.
  pub serve-Served : Served up net usage ctx r w (serve up net usage now ctx r w)
  serve-Served = elim (Bool-cases (has_inbound_credential r.header)) [
    | inr a ↦ rw (serve_anonymous a) (anonymous a (inner_cases net usage now ctx r w))
    | inl a ↦ rw (serve_credential a) (with_device-Served ctx.device a refl)
  ]
