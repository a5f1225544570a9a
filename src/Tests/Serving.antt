-- ===== src/Tests/Serving.antt =====
-- Tests of the serving chain.
use cc_mysub.Base.{
  equal, lookup, ℕ, ◌≤◌, codes, true, false, length, List, [], ◌∷◌, none, some, ◌==◌, if◌then◌else◌,
  ◌≡◌, ◌≢◌, refl, pos, arith, ◌*◌, ◌+◌, ◌-◌,
}
use cc_mysub.Auth.Token.{has_inbound_credential}
use cc_mysub.Config.{pick_token}
use cc_mysub.RateLimit.{unit}
use cc_mysub.RateLimit.Window.{Fits}
use cc_mysub.Proxy.Chain.{Net, Request, Outbound, serve, label_of, is_exempt, per_minute_of}
use cc_mysub.Proxy.Chain.Swap.{Sends, IsSwapped, Carries, serve_swaps, serve_any_host}
use cc_mysub.Proxy.Chain.Limit.{serve_all, sent_window}
use cc_mysub.Tests.Data.{
  accepted, laptop, upstream, net, usage, context, world, ask, telemetry, placeholder, request_of,
}

ask_credential : has_inbound_credential ask.header ≡ true
unfolding has_inbound_credential equal
ask_credential = refl

laptop_token : pick_token upstream laptop.upstream ≡ codes "secret"
unfolding pick_token
laptop_token = refl

has_token : pick_token upstream laptop.upstream ≢ []
unfolding pick_token
has_token e = cc

serve_swaps_example :
    Sends
      (λ out.
        IsSwapped (pick_token upstream laptop.upstream) ask out
        × (pick_token upstream laptop.upstream ≢ []))
      world
      (serve upstream net usage 7 context ask world).0
serve_swaps_example = serve_swaps upstream net usage 7 context ask world laptop refl ask_credential

-- The Host header names a server of the client's choice.
abbrev elsewhere : Request
elsewhere = record (request_of placeholder (codes "/api/x")) { host = codes "evil.example" }

elsewhere_exempt : is_exempt elsewhere.path ≡ true
unfolding is_exempt
elsewhere_exempt = refl

has_label : laptop.label ≢ []
has_label e = cc

serve_any_host_example :
    (out : Outbound) × ((serve upstream net usage 7 context elsewhere world).0.sent
      ≡ out ∷ world.sent)
    × (out.url_host ≡ elsewhere.host)
    × Carries (pick_token upstream laptop.upstream) out.header
serve_any_host_example =
    serve_any_host upstream net usage 7 context elsewhere world laptop refl has_label has_token
      ask_credential elsewhere_exempt refl

abbrev history : List (ℕ × Request)
history = (10, ask) ∷ (20, telemetry) ∷ (30, ask) ∷ []

laptop_limit : per_minute_of 120 context.device ≡ pos 2
unfolding per_minute_of
laptop_limit = refl

not_exempt : is_exempt ask.path ≡ false
unfolding is_exempt
not_exempt = refl

not_exempt_telemetry : is_exempt telemetry.path ≡ false
unfolding is_exempt
not_exempt_telemetry = refl

fresh : Fits 2 40 (lookup (label_of context.device) world.limiter)
unfolding lookup
fresh = tt

sent_window_example :
    (length (serve_all upstream net usage context history world).sent * unit
      ≤ length world.sent * unit + 2 * (unit + (40 - 10)))
    × (length (serve_all upstream net usage context history world).attempts * unit
        ≤ length world.attempts * unit + 3 * (2 * (unit + (40 - 10))))
sent_window_example =
    sent_window upstream net usage context 2 10 40 history world laptop_limit (omega arith) fresh
      (omega arith) (not_exempt, (not_exempt_telemetry, (not_exempt, tt)))
      ((omega arith, omega arith), ((omega arith, omega arith), ((omega arith, omega arith), tt)))

-- Two of three requests at about one time are sent.
two_of_three : length (serve_all upstream net usage context history world).sent ≡ 2
unfolding serve
two_of_three = refl

-- The network fails twice: a request without a body is tried three times, one with a body once.
abbrev failing : Net
failing = record {
  prepare = λ h. h;
  attempt = λ i out. (if i == 2 then some accepted else none, 1);
}

abbrev tries_of : Request → ℕ
tries_of r = length (serve upstream failing usage 7 context r world).0.attempts

three_tries : tries_of (record ask { body = none }) ≡ 3
unfolding serve
three_tries = refl

one_try : tries_of ask ≡ 1
unfolding serve
one_try = refl

-- An answer that breaks off is not logged.
abbrev breaking : Net
breaking = record {
  prepare = λ h. h;
  attempt = λ i out. (some (record accepted { aborted = true }), 0);
}

not_logged : (serve upstream breaking usage 7 context ask world).0.log ≡ []
unfolding serve
not_logged = refl
