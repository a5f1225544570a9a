-- ===== src/Proxy/Session/Identity.antt =====
-- What a connection can make the proxy send.
use cc_mysub.Base.{
  ℕ, Bytes, Bool, true, false, Bool-cases, Result, ok, err, All, All-append, All-weaken, Elem, map,
  List, [], ◌∷◌, ◌++◌, append_assoc, some, ◌≡◌, ◌≢◌, ◌⊎◌, inl, inr, refl, sym, ap, ◌∙◌,
  if◌then◌else◌,
}
use cc_mysub.Auth.Token.{Sha256, cert_fingerprint, has_inbound_credential}
use cc_mysub.Auth.Store.{Device, lookup_device}
use cc_mysub.Config.{Upstream, pick_token}
use cc_mysub.Mitm.{Signer, Minter, Cert, cert_for}
use cc_mysub.Mitm
use cc_mysub.Stream.{has}
use cc_mysub.Proxy.Handle.{ForwardProxy, Conn, Outcome, closed, tunnel}
use cc_mysub.Proxy.Handle
use cc_mysub.Proxy.Handle.Admission.{handle-Admitted}
use cc_mysub.Proxy.Usage.{Usage}
use cc_mysub.Proxy.Chain.{Request, Response, Outbound, Net, World, serve}
use cc_mysub.Proxy.Chain.Swap.{
  IsSwapped, IsUntouched, Sends, serve_swaps, serve_anonymous-IsUntouched,
}
use cc_mysub.Proxy.Session.{base_context, serve_requests, handshaken, tunnelled, serve_conn}

module _ (up : Upstream) (net : Net) (usage : Response → Usage) (d : Device) where
  -- What is sent for a request of the device: with a credential, the device's token; without one, the
  -- request's own headers.
  abbrev pub SentFor : Request → Outbound → Type 0
  SentFor r out =
      ((has_inbound_credential r.header ≡ true)
        × IsSwapped (pick_token up d.upstream) r out
        × (pick_token up d.upstream ≢ []))
      ⊎ ((has_inbound_credential r.header ≡ false) × IsUntouched net r out)

  abbrev pub SentForOne : List (ℕ × Request) → Outbound → Type 0
  SentForOne qs out = (r : Request) × Elem r (map (λ (q : ℕ × Request). q.1) qs) × SentFor r out

  -- The requests that were sent since, newest first.
  abbrev pub SendsFor : List (ℕ × Request) → World → World → Type 0
  SendsFor qs w w' = (outs : List Outbound) × (w'.sent ≡ outs ++ w.sent) × All (SentForOne qs) outs

  serve-Sends :
      (now : ℕ) (r : Request) (w : World)
      → Sends (SentFor r) w (serve up net usage now (base_context d) r w).0
  serve-Sends now r w = elim (Bool-cases (has_inbound_credential r.header)) [
    | inl c ↦ elim (serve_swaps up net usage now (base_context d) r w d refl c) [
      | inl e ↦ inl e
      | inr (out, e, s) ↦ inr (out, e, inl (c, s.0, s.1))
    ]
    | inr c ↦ elim (serve_anonymous-IsUntouched up net usage now (base_context d) r w refl c) [
      | inl e ↦ inl e
      | inr (out, e, s) ↦ inr (out, e, inr (c, s))
    ]
  ]

  weaken :
      (q : ℕ × Request) (qs : List (ℕ × Request)) (out : Outbound)
      → SentForOne qs out
      → SentForOne (q ∷ qs) out
  weaken q qs out (r, m, s) = (r, inr m, s)

  -- What follows a request that is sent or not.
  behind :
      (q : ℕ × Request) (qs : List (ℕ × Request)) (w w' w'' : World)
      → Sends (SentFor q.1) w w'
      → SendsFor qs w' w''
      → SendsFor (q ∷ qs) w w''
  behind q qs w w' w'' first (outs, e, h) =
      let later = All-weaken (λ out s. weaken q qs out s) outs h in
      elim first [
        | inl f ↦ (outs, e ∙ ap (λ x. outs ++ x) f, later)
        | inr (out, f, s) ↦ (
          outs ++ out ∷ [],
          e ∙ ap (λ x. outs ++ x) f ∙ sym (append_assoc outs (out ∷ []) w.sent),
          All-append (SentForOne (q ∷ qs)) outs (out ∷ []) later ((q.1, inl refl, s), tt),
        )
      ]

  -- The connection goes on, or ends.
  pub stops_or :
      (stops : Bool) (qs : List (ℕ × Request)) (w w' : World)
      → SendsFor qs w w'
      → SendsFor qs w (if stops then w else w')
  stops_or true qs w w' h = ([], refl, tt)
  stops_or false qs w w' h = h

  pub serve_requests-SendsFor :
      (qs : List (ℕ × Request)) (w : World)
      → SendsFor qs w (serve_requests up net usage (base_context d) qs w)
  unfolding serve_requests
  serve_requests-SendsFor [] w = ([], refl, tt)
  serve_requests-SendsFor ((now, r) ∷ qs) w =
      let res = serve up net usage now (base_context d) r w in
      let rest = serve_requests up net usage (base_context d) qs res.0 in
      behind (now, r) qs w res.0 (if res.1.aborted then res.0 else rest) (serve-Sends now r w)
        (stops_or res.1.aborted qs res.0 rest (serve_requests-SendsFor qs res.0))

module _ (up : Upstream) (net : Net) (usage : Response → Usage) (signer : Signer) (now : ℕ)
    (inner : Bytes → Cert → List (ℕ × Request)) (sha : Sha256) (fp : ForwardProxy) (conn : Conn)
    (m : Minter) (w : World) where
  -- The device, the host and the stream of the tunnel through which something was sent.
  pub record Identified (w' : World) : Type 0 where
    pub der : Bytes
    pub device : Device
    pub host : Bytes
    pub rest : Bytes
    pub cert : Cert
    pub presented : conn.cert ≡ some der
    pub registered : lookup_device fp.auth (cert_fingerprint sha der) ≡ some device
    pub allowed : has fp.allow host ≡ true
    pub minted : (cert_for signer m host now).1 ≡ ok cert
    pub sends : SendsFor up net usage device (inner rest cert) w w'

  handshaken_cases :
      (d : Device) (rest : Bytes) (r : Minter × Result Mitm.Error Cert)
      → ((handshaken up net usage signer now inner d rest w r).1 ≡ w)
        ⊎ ((c : Cert) × (r.1 ≡ ok c)
            × SendsFor up net usage d
                (inner rest c)
                w
                (handshaken up net usage signer now inner d rest w r).1)
  unfolding handshaken
  handshaken_cases d rest (m', err e) = inl refl
  handshaken_cases d rest (m', ok c) =
      inr (c, refl, serve_requests-SendsFor up net usage d (inner rest c) w)

  tunnelled_cases :
      (o : Outcome)
      → Handle.handle sha fp conn ≡ o
      → ((tunnelled up net usage signer now inner m w o).1 ≡ w)
        ⊎ Identified (tunnelled up net usage signer now inner m w o).1
  unfolding tunnelled
  tunnelled_cases (closed reply) e = inl refl
  tunnelled_cases (tunnel d host rest) e =
      let a = handle-Admitted sha fp conn d host rest e in
      elim (handshaken_cases d rest (cert_for signer m host now)) [
        | inl f ↦ inl f
        | inr (c, f, s) ↦ inr (record {
          der = a.der;
          device = d;
          host = host;
          rest = rest;
          cert = c;
          presented = a.presented;
          registered = a.registered;
          allowed = a.allowed;
          minted = f;
          sends = s;
        })
      ]

  -- A connection, from its outer handshake to its end, either leaves the buckets, the log and the
  -- requests sent as they were; or its client presented a certificate whose fingerprint the whitelist
  -- answers with a device, the CONNECT host is on the allowlist and has a minted certificate, and
  -- everything that was sent upstream is for a request that the inner server read: with the token of
  -- that device's pool entry, not empty, as its only Authorization value and no X-Api-Key, if the
  -- request has a credential, and with the request's own headers if it has none.
  pub serve_conn-Identified :
      ((serve_conn up net usage signer now inner sha fp conn m w).1 ≡ w)
      ⊎ Identified (serve_conn up net usage signer now inner sha fp conn m w).1
  unfolding serve_conn
  serve_conn-Identified = tunnelled_cases (Handle.handle sha fp conn) refl
