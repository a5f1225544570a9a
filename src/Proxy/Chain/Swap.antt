-- ===== src/Proxy/Chain/Swap.antt =====
-- Which credentials reach the upstream.
use mathlib.Core.Bool.{false≢true}
use cc_mysub.Base.{
  ℕ, Bytes, true, false, equal, is_empty, is_empty-false, lookup, insert, lookup-insert,
  lookup-delete, [], ◌∷◌, ◌++◌, none, some, ◌≡◌, ◌≢◌, ◌⊎◌, inl, inr, refl, sym, ap, ◌∙◌, subst,
  if◌then◌else◌,
}
use cc_mysub.Http.{Header, authorization, x_api_key}
use cc_mysub.Auth.Token.{has_inbound_credential, bearer}
use cc_mysub.Auth.Store.{Device}
use cc_mysub.Config.{Upstream, pick_token}
use cc_mysub.Proxy.Usage.{Usage}
use cc_mysub.Proxy.Chain.{
  Request, Context, Response, Outbound, Net, World, logged, sending, with_token, rewrite,
  forward_swap, access_log, rate_limit_by_device, is_exempt, serve,
}
use cc_mysub.Proxy.Chain.Effects.{
  Served, anonymous, unidentified, tokenless, swapped, serve-Served, serve_identified, inner,
}

-- The one Authorization value is the token, and no X-Api-Key is left.
abbrev pub Carries : Bytes → Header → Type 0
Carries real h =
    (lookup authorization h ≡ some ((bearer ++ real) ∷ [])) × (lookup x_api_key h ≡ none)

with_token-Carries :
    (h : Header) (real : Bytes) → real ≢ [] → Carries real (with_token h (some real))
unfolding with_token equal
with_token-Carries h real n = rw (is_empty-false real n) (
  rw (
    lookup-delete x_api_key authorization (insert authorization ((bearer ++ real) ∷ []) h),
    lookup-insert authorization authorization ((bearer ++ real) ∷ []) h,
  ),
  rw (lookup-delete x_api_key x_api_key (insert authorization ((bearer ++ real) ∷ []) h)),
)

-- Where forwardSwap sends a request.
abbrev pub target_host : Request → Bytes
target_host r = if is_empty r.url_host then r.host else r.url_host

-- At most one request was sent, and it is as `P` says.
abbrev pub Sends : (Outbound → Type 0) → World → World → Type 0
Sends P w w' = (w'.sent ≡ w.sent) ⊎ ((out : Outbound) × (w'.sent ≡ out ∷ w.sent) × P out)

abbrev pub IsSwapped : Bytes → Request → Outbound → Type 0
IsSwapped real r out =
    Carries real out.header
    × (out.url_host ≡ target_host r)
    × (out.body ≡ r.body)
    × (out.path ≡ r.path)

abbrev pub IsUntouched : Net → Request → Outbound → Type 0
IsUntouched net r out =
    (out.header ≡ net.prepare r.header)
    × (out.url_host ≡ target_host r)
    × (out.body ≡ r.body)
    × (out.path ≡ r.path)

pub rewrite-IsSwapped :
    (net : Net) (ctx : Context) (r : Request) (real : Bytes)
    → real ≢ []
    → IsSwapped real r (rewrite net (record ctx { real_token = some real }) r)
unfolding rewrite
rewrite-IsSwapped net ctx r real n =
    (with_token-Carries (net.prepare r.header) real n, refl, refl, refl)

rewrite-IsUntouched :
    (net : Net) (ctx : Context) (r : Request)
    → ctx.real_token ≡ none
    → IsUntouched net r (rewrite net ctx r)
unfolding rewrite
rewrite-IsUntouched net ctx r t = rw (t, with_token) (refl, refl, refl, refl)

some_same : {a b : Device} → some a ≡ some b → a ≡ b
some_same e = cc

Served-IsSwapped :
    (up : Upstream) (net : Net) (usage : Response → Usage) (ctx : Context) (r : Request) (w : World)
    (res : World × Response) (d : Device)
    → ctx.device ≡ some d
    → has_inbound_credential r.header ≡ true
    → Served up net usage ctx r w res
    → Sends
        (λ out. IsSwapped (pick_token up d.upstream) r out × (pick_token up d.upstream ≢ []))
        w
        res.0
Served-IsSwapped up net usage ctx r w res d e c (anonymous a h) = absurd (false≢true (sym a ∙ c))
Served-IsSwapped up net usage ctx r w (w', resp) d e c (unidentified a f (s, l, g, t')) = inl s
Served-IsSwapped up net usage ctx r w (w', resp) d e c (tokenless d' f p (s, l, g, t')) = inl s
Served-IsSwapped up net usage ctx r w (w', resp) d e c (swapped d' a f p (inl (s, l, g, t'))) =
    inl s
Served-IsSwapped up net usage ctx r w (w', resp) d e c (swapped d' a f p (inr (s, g, l, t'))) =
    let same : d' ≡ d = some_same (sym f ∙ e) in
    subst
      (λ x.
        Sends (λ out. IsSwapped (pick_token up x.upstream) r out × (pick_token up x.upstream ≢ []))
          w w')
      same (inr (_, s, (rewrite-IsSwapped net ctx r (pick_token up d'.upstream) p, p)))

Served-IsUntouched :
    (up : Upstream) (net : Net) (usage : Response → Usage) (ctx : Context) (r : Request) (w : World)
    (res : World × Response)
    → ctx.real_token ≡ none
    → has_inbound_credential r.header ≡ false
    → Served up net usage ctx r w res
    → Sends (IsUntouched net r) w res.0
Served-IsUntouched up net usage ctx r w (w', resp) t c (anonymous a (inl (s, l, g, t'))) = inl s
Served-IsUntouched up net usage ctx r w (w', resp) t c (anonymous a (inr (s, g, l, t'))) =
    inr (_, s, rewrite-IsUntouched net ctx r t)
Served-IsUntouched up net usage ctx r w (w', resp) t c (unidentified a f (s, l, g, t')) = inl s
Served-IsUntouched up net usage ctx r w (w', resp) t c (tokenless d' f p (s, l, g, t')) = inl s
Served-IsUntouched up net usage ctx r w (w', resp) t c (swapped d' a f p h) =
    absurd (false≢true (sym c ∙ a))

-- A request with a credential, on a connection of device d: either nothing is sent upstream for it, or
-- one request is, which carries the token of d's pool entry, not empty, as its only Authorization
-- value, has no X-Api-Key, and has the path and body of the request and the host of its URL or else of
-- its Host header.
pub serve_swaps :
    (up : Upstream) (net : Net) (usage : Response → Usage) (now : ℕ) (ctx : Context) (r : Request)
    (w : World) (d : Device)
    → ctx.device ≡ some d
    → has_inbound_credential r.header ≡ true
    → Sends
        (λ out. IsSwapped (pick_token up d.upstream) r out × (pick_token up d.upstream ≢ []))
        w
        (serve up net usage now ctx r w).0
serve_swaps up net usage now ctx r w d e c =
    Served-IsSwapped up net usage ctx r w _ d e c (serve-Served up net usage now ctx r w)

-- A request without a credential, in a context without a token: either nothing is sent upstream for it,
-- or one request is, with exactly the headers that the reverse proxy makes of its own, its path and
-- body, and the host of its URL or else of its Host header.
pub serve_anonymous-IsUntouched :
    (up : Upstream) (net : Net) (usage : Response → Usage) (now : ℕ) (ctx : Context) (r : Request)
    (w : World)
    → ctx.real_token ≡ none
    → has_inbound_credential r.header ≡ false
    → Sends (IsUntouched net r) w (serve up net usage now ctx r w).0
serve_anonymous-IsUntouched up net usage now ctx r w t c =
    Served-IsUntouched up net usage ctx r w _ t c (serve-Served up net usage now ctx r w)

pub inner_exempt :
    (net : Net) (usage : Response → Usage) (now : ℕ) (ctx : Context) (r : Request) (w : World)
    → is_exempt r.path ≡ true
    → (inner net usage now ctx r w).0.sent ≡ rewrite net ctx r ∷ w.sent
inner_exempt net usage now ctx r w x =
    unfold rate_limit_by_device access_log forward_swap logged sending in rw x

-- On a connection of a device with a label and a token, a request with a credential, of an exempt path
-- and without a host in its URL, is sent to whatever host its Host header names, and carries the
-- device's real token.
pub serve_any_host :
    (up : Upstream) (net : Net) (usage : Response → Usage) (now : ℕ) (ctx : Context) (r : Request)
    (w : World) (d : Device)
    → ctx.device ≡ some d
    → d.label ≢ []
    → pick_token up d.upstream ≢ []
    → has_inbound_credential r.header ≡ true
    → is_exempt r.path ≡ true
    → r.url_host ≡ []
    → (out : Outbound) × ((serve up net usage now ctx r w).0.sent ≡ out ∷ w.sent)
      × (out.url_host ≡ r.host)
      × Carries (pick_token up d.upstream) out.header
unfolding is_empty
serve_any_host up net usage now ctx r w d e l p c x u =
    let real = pick_token up d.upstream in
    let ctx' = record ctx { real_token = some real } in
    let (carries, host, body, path) = rewrite-IsSwapped net ctx r real p in
    (
      rewrite net ctx' r,
      ap (λ (res : World × Response). res.0.sent)
            (serve_identified up net usage now ctx r w d c e (is_empty-false d.label l)
              (is_empty-false real p))
          ∙ inner_exempt net usage now ctx' r w x,
      host ∙ rw (u, is_empty),
      carries,
    )
