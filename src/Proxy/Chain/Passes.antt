-- ===== src/Proxy/Chain/Passes.antt =====
-- Which requests are sent for certain.
use cc_mysub.Base.{
  ℕ, true, false, is_empty, is_empty-false, Bool-cases, [], ◌∷◌, some, ◌≡◌, ◌≢◌, ◌⊎◌, inl, inr, ap,
  ◌∙◌,
}
use cc_mysub.Auth.Token.{has_inbound_credential}
use cc_mysub.Auth.Store.{Device}
use cc_mysub.Config.{Upstream, pick_token}
use cc_mysub.RateLimit.{allow}
use cc_mysub.Proxy.Usage.{Usage}
use cc_mysub.Proxy.Chain.{
  Request, Context, Response, Outbound, Net, World, rewrite, forward_swap, access_log,
  rate_limit_by_device, is_exempt, limited, label_of, per_minute_of, default_per_minute, serve,
}
use cc_mysub.Proxy.Chain.Effects.{serve_identified, inner}
use cc_mysub.Proxy.Chain.Swap.{IsSwapped, rewrite-IsSwapped, inner_exempt}

inner_within :
    (net : Net) (usage : Response → Usage) (now : ℕ) (ctx : Context) (r : Request) (w : World)
    → is_exempt r.path ≡ false
    → (allow w.limiter (label_of ctx.device) (per_minute_of default_per_minute ctx.device) now).0
      ≡ true
    → (inner net usage now ctx r w).0.sent ≡ rewrite net ctx r ∷ w.sent
inner_within net usage now ctx r w x a =
    unfold rate_limit_by_device limited access_log forward_swap in rw (x, a)

-- A request that the limit lets through, or that it does not count.
abbrev pub PassesLimit : Device → ℕ → Request → World → Type 0
PassesLimit d now r w =
    (is_exempt r.path ≡ true)
    ⊎ ((allow w.limiter d.label (per_minute_of default_per_minute (some d)) now).0 ≡ true)

inner_passes :
    (net : Net) (usage : Response → Usage) (now : ℕ) (ctx : Context) (r : Request) (w : World)
    (d : Device)
    → ctx.device ≡ some d
    → PassesLimit d now r w
    → (inner net usage now ctx r w).0.sent ≡ rewrite net ctx r ∷ w.sent
inner_passes net usage now ctx r w d e (inl x) = inner_exempt net usage now ctx r w x
inner_passes net usage now ctx r w d e (inr a) = elim (Bool-cases (is_exempt r.path)) [
  | inl x ↦ inner_exempt net usage now ctx r w x
  | inr x ↦ inner_within net usage now ctx r w x (rw e a)
]

-- A request with a credential, within the limit, of a device with a label and a token, is sent.
pub serve_passes :
    (up : Upstream) (net : Net) (usage : Response → Usage) (now : ℕ) (ctx : Context) (r : Request)
    (w : World) (d : Device)
    → ctx.device ≡ some d
    → is_empty d.label ≡ false
    → pick_token up d.upstream ≢ []
    → has_inbound_credential r.header ≡ true
    → PassesLimit d now r w
    → (out : Outbound) × ((serve up net usage now ctx r w).0.sent ≡ out ∷ w.sent)
      × IsSwapped (pick_token up d.upstream) r out
serve_passes up net usage now ctx r w d e l p c x =
    let real = pick_token up d.upstream in
    let ctx' = record ctx { real_token = some real } in
    (
      rewrite net ctx' r,
      ap (λ (res : World × Response). res.0.sent)
            (serve_identified up net usage now ctx r w d c e l (is_empty-false real p))
          ∙ inner_passes net usage now ctx' r w d e x,
      rewrite-IsSwapped net ctx r real p,
    )
