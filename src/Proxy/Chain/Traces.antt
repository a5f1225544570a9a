-- ===== src/Proxy/Chain/Traces.antt =====
-- What one request leaves behind: what is sent for it, in which attempts, and what is logged.
use cc_mysub.Base.{
  ℕ, Bytes, true, false, List, ◌∷◌, Option, some, Bool-cases, ◌≡◌, ◌⊎◌, inl, inr, refl, ap, ◌∙◌,
  map, ◌++◌, if◌then◌else◌,
}
use cc_mysub.Config.{Upstream, pick_token}
use cc_mysub.Proxy.Usage.{Usage}
use cc_mysub.Proxy.Chain.Attempts.{IsTried, transport-IsTried}
use cc_mysub.Proxy.Chain.{
  json_error, Request, Context, Response, Outbound, Net, AccessRecord, World, rate_limited,
  label_of, record_of, rewrite, serve, transport, with_body,
}
use cc_mysub.Proxy.Chain.Effects.{
  Refuses, Forwards, Served, anonymous, unidentified, tokenless, swapped, serve-Served,
}

-- Behind a handler that returned, one entry is logged, for the device and with the status of the
-- answer; behind one that panicked, none.
abbrev pub IsLogged : Context → World → World × Response → Type 0
IsLogged ctx w (w', resp) =
    ((resp.aborted ≡ true) × (w'.log ≡ w.log))
    ⊎ ((entry : AccessRecord) × (resp.aborted ≡ false)
        × (w'.log ≡ entry ∷ w.log)
        × (entry.device ≡ label_of ctx.device)
        × (entry.status ≡ resp.status))

-- What a request leaves behind.
abbrev pub Effect : Context → Request → World → World × Response → Type 0
Effect ctx r w (w', resp) =
    (((resp.status ≡ 429) ⊎ (resp.status ≡ 502))
      × (w'.sent ≡ w.sent)
      × (w'.attempts ≡ w.attempts)
      × (w'.log ≡ w.log))
    ⊎ ((out : Outbound) × (tries : List Outbound) × (w'.sent ≡ out ∷ w.sent)
        × (w'.attempts ≡ tries ++ w.attempts)
        × IsTried out tries
        × (out.body ≡ r.body)
        × IsLogged ctx w (w', resp))

Forwards-IsLogged :
    (net : Net) (usage : Response → Usage) (ctx : Context) (r : Request) (w w' : World)
    (resp : Response)
    → w'.log ≡ (if resp.aborted then w.log else record_of usage ctx r resp ∷ w.log)
    → IsLogged ctx w (w', resp)
unfolding record_of
Forwards-IsLogged net usage ctx r w w' resp l = elim (Bool-cases resp.aborted) [
  | inl e ↦ inl (e, l ∙ ap (λ b. if b then w.log else record_of usage ctx r resp ∷ w.log) e)
  | inr e ↦
      let kept = ap (λ b. if b then w.log else record_of usage ctx r resp ∷ w.log) e in
      inr (record_of usage ctx r resp, e, l ∙ kept, refl, refl)
]

Forwards-Effect :
    (net : Net) (usage : Response → Usage) (ctx : Context) (real : Option Bytes) (r : Request)
    (w : World) (res : World × Response)
    → Refuses w rate_limited res ⊎ Forwards net usage (record ctx { real_token = real }) r w res
    → Effect ctx r w res
unfolding json_error rewrite
Forwards-Effect net usage ctx real r w (w', resp) (inl (s, l, e, t)) =
    inl (inl (ap (λ (x : Response). x.status) e), s, t, l)
Forwards-Effect net usage ctx real r w (w', resp) (inr (s, e, l, t)) =
    let out = rewrite net (record ctx { real_token = real }) r in
    inr (
      out,
      map (with_body out) (transport net out).sent,
      s,
      t,
      transport-IsTried net out,
      refl,
      Forwards-IsLogged net usage (record ctx { real_token = real }) r w w' resp l,
    )

Served-Effect :
    (up : Upstream) (net : Net) (usage : Response → Usage) (ctx : Context) (r : Request) (w : World)
    (res : World × Response)
    → Served up net usage ctx r w res
    → Effect ctx r w res
unfolding json_error
Served-Effect up net usage ctx r w res (anonymous a h) =
    Forwards-Effect net usage ctx ctx.real_token r w res h
Served-Effect up net usage ctx r w res (unidentified a e (s, l, f, t)) =
    inl (inr (ap (λ (x : Response). x.status) f), s, t, l)
Served-Effect up net usage ctx r w res (tokenless d e p (s, l, f, t)) =
    inl (inr (ap (λ (x : Response). x.status) f), s, t, l)
Served-Effect up net usage ctx r w res (swapped d a e p h) =
    Forwards-Effect net usage ctx (some (pick_token up d.upstream)) r w res h

pub serve_effects :
    (up : Upstream) (net : Net) (usage : Response → Usage) (now : ℕ) (ctx : Context) (r : Request)
    (w : World)
    → Effect ctx r w (serve up net usage now ctx r w)
serve_effects up net usage now ctx r w =
    Served-Effect up net usage ctx r w _ (serve-Served up net usage now ctx r w)
