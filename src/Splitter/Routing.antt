-- ===== src/Splitter/Routing.antt =====
-- Where the splitter connects to, and what it answers.
use cc_mysub.Base.{
  Bytes, codes, true, contains, List, [], ◌∷◌, Option, none, some, Option-cases, Bool-cases, ◌≡◌,
  ◌⊎◌, inl, inr, refl, ap, arith, if◌then◌else◌,
}
use cc_mysub.Stream.{read_line, drain_headers, has}
use cc_mysub.Connect.Parse.{parse_connect}
use cc_mysub.Connect.Parse.Target.{target_of}
use cc_mysub.Splitter.{
  Splitter, Env, Action, dial, to_client, to_upstream, relay, bad_gateway, established,
  join_host_port, chained_request, chain_headers, chain_status, chain, direct, handle_headers,
  handle_host, handle_line, handle,
}

abbrev pub dialled : List Action → List Bytes
dialled [] = []
dialled (dial a ∷ t) = a ∷ dialled t
dialled (_ ∷ t) = dialled t

abbrev pub answers : List Action → List Bytes
answers [] = []
answers (to_client s ∷ t) = s ∷ answers t
answers (_ ∷ t) = answers t

abbrev pub relays : List Action → List (Bytes × Bytes)
relays [] = []
relays (relay a b ∷ t) = (a, b) ∷ relays t
relays (_ ∷ t) = relays t

abbrev pub writes : List Action → List Bytes
writes [] = []
writes (to_upstream s ∷ t) = s ∷ writes t
writes (_ ∷ t) = writes t

-- The client's request: its CONNECT line, the host that it names, and what follows the headers.
pub record Asks (env : Env) (line host client : Bytes) : Type 0 where
  pub behind : Bytes
  pub first : read_line env.client ≡ some (line, behind)
  pub named : parse_connect line ≡ some host
  pub drained : drain_headers [] behind ≡ some client

abbrev pub proxy_address : Splitter → Bytes
proxy_address s = join_host_port s.host (codes "443")

pub handle-branch :
    (s : Splitter) (env : Env) (line host client : Bytes)
    → Asks env line host client
    → handle s env ≡ (
        if has s.allow host
        then chain s env (target_of line) client
        else direct env (target_of line) client)
handle-branch s env line host client a =
    unfold handle in rw (a.first, handle_line, a.named, handle_host, a.drained, handle_headers)

-- Behind the request to the proxy, and in the direct branch, nothing is dialled or written.
chain_status_quiet :
    (client : Bytes) (o : Option (Bytes × Bytes))
    → (dialled (chain_status client o) ≡ []) × (writes (chain_status client o) ≡ [])
unfolding chain_status
chain_status_quiet client none = (refl, refl)
chain_status_quiet client (some (status, upstream)) = ground arith

chain_routing :
    (s : Splitter) (env : Env) (target client : Bytes)
    → (dialled (chain s env target client) ≡ proxy_address s ∷ [])
      × ((writes (chain s env target client) ≡ [])
          ⊎ (writes (chain s env target client) ≡ chained_request target ∷ []))
unfolding chain
chain_routing s env target client = elim (Bool-cases (env.dials (proxy_address s))) [
  | inr a ↦ rw a (refl, inl refl)
  | inl a ↦ elim (Bool-cases env.handshakes) [
    | inr b ↦ rw (a, b) (refl, inl refl)
    | inl b ↦ elim (Bool-cases env.accepts_write) [
      | inr c ↦ rw (a, b, c) (refl, inr refl)
      | inl c ↦
          let (d, w) = chain_status_quiet client (read_line env.upstream) in
          rw (a, b, c) (ap (◌∷◌ (proxy_address s)) d, inr (ap (◌∷◌ (chained_request target)) w))
    ]
  ]
]

direct_routing :
    (env : Env) (target client : Bytes)
    → (dialled (direct env target client) ≡ target ∷ []) × (writes (direct env target client) ≡ [])
unfolding direct
direct_routing env target client = ground arith

-- For a client whose line names a host, headers complete: if the host is on the list, the splitter
-- dials the proxy's address and nothing else, and writes upstream nothing or just the CONNECT request
-- for the client's target; otherwise it dials that target and nothing else, and writes nothing upstream
-- itself.
pub handle_routing :
    (s : Splitter) (env : Env) (line host client : Bytes)
    → Asks env line host client
    → (dialled (handle s env) ≡ (if has s.allow host then proxy_address s else target_of line) ∷ [])
      × ((writes (handle s env) ≡ [])
          ⊎ ((has s.allow host ≡ true)
              × (writes (handle s env) ≡ chained_request (target_of line) ∷ [])))
handle_routing s env line host client a = elim (Bool-cases (has s.allow host)) [
  | inl e ↦
      let (d, w) = chain_routing s env (target_of line) client in
      rw (handle-branch s env line host client a, e)
        (d, elim w [ inl x ↦ inl x | inr x ↦ inr (refl, x) ])
  | inr e ↦
      let (d, w) = direct_routing env (target_of line) client in
      rw (handle-branch s env line host client a, e) (d, inl w)
]

-- How a trace ends for the client: joined to a stream that `P` describes, or turned away.
abbrev pub Ends : (Bytes → Type 0) → Bytes → List Action → Type 0
Ends P client t =
    ((upstream : Bytes) × P upstream
      × (answers t ≡ established ∷ [])
      × (relays t ≡ (client, upstream) ∷ []))
    ⊎ (((answers t ≡ []) ⊎ (answers t ≡ bad_gateway ∷ [])) × (relays t ≡ []))

abbrev pub Behind : Bytes → Bytes → Type 0
Behind received upstream =
    (status : Bytes) × (behind : Bytes) × (read_line received ≡ some (status, behind))
    × (contains status (codes "200") ≡ true)
    × (drain_headers [] behind ≡ some upstream)

-- What the peer sends behind its answer: on the way through the proxy the status line and headers of
-- the proxy's own answer are taken off.
abbrev pub Follows : Splitter → Env → Bytes → Bytes → Type 0
Follows s env host upstream =
    if has s.allow host then Behind env.upstream upstream else (upstream ≡ env.upstream)

chain_status-Ends :
    (received client : Bytes) (o : Option (Bytes × Bytes))
    → read_line received ≡ o
    → Ends (Behind received) client (chain_status client o)
unfolding chain_status
chain_status-Ends received client none e = inr (inr refl, refl)
chain_status-Ends received client (some (status, behind)) e =
    elim (Bool-cases (contains status (codes "200"))) [
      | inr c ↦ rw c (inr (inr refl, refl))
      | inl c ↦ elim (Option-cases (drain_headers [] behind)) [
        | inl d ↦ rw (c, d, chain_headers) (inr (inl refl, refl))
        | inr (upstream, d) ↦
            rw (c, d, chain_headers) (inl (upstream, (status, behind, e, c, d), refl, refl))
      ]
    ]

chain-Ends :
    (s : Splitter) (env : Env) (target client : Bytes)
    → Ends (Behind env.upstream) client (chain s env target client)
unfolding chain
chain-Ends s env target client = elim (Bool-cases (env.dials (proxy_address s))) [
  | inr a ↦ rw a (inr (inr refl, refl))
  | inl a ↦ elim (Bool-cases env.handshakes) [
    | inr b ↦ rw (a, b) (inr (inr refl, refl))
    | inl b ↦ elim (Bool-cases env.accepts_write) [
      | inr c ↦ rw (a, b, c) (inr (inl refl, refl))
      | inl c ↦ rw (a, b, c) (chain_status-Ends env.upstream client (read_line env.upstream) refl)
    ]
  ]
]

direct-Ends :
    (env : Env) (target client : Bytes)
    → Ends (λ u. u ≡ env.upstream) client (direct env target client)
unfolding direct
direct-Ends env target client = elim (Bool-cases (env.dials target)) [
  | inr a ↦ rw a (inr (inr refl, refl))
  | inl a ↦ rw a (inl (env.upstream, refl, refl, refl))
]

-- For a client whose line names a host, headers complete: either it is answered by 200 alone and its
-- stream behind the headers is joined to the peer's, which for a host on the list begins behind a first
-- line with 200 in it and the headers of the proxy's answer and for any other host is all that the peer
-- sends, or nothing is joined and it gets no answer or 502 alone.
pub handle_answer :
    (s : Splitter) (env : Env) (line host client : Bytes)
    → Asks env line host client
    → Ends (Follows s env host) client (handle s env)
handle_answer s env line host client a = elim (Bool-cases (has s.allow host)) [
  | inl e ↦
      rw (handle-branch s env line host client a, e) (chain-Ends s env (target_of line) client)
  | inr e ↦ rw (handle-branch s env line host client a, e) (direct-Ends env (target_of line) client)
]
