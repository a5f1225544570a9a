-- ===== src/Proxy/Session/Enrolled.antt =====
-- From add-device to the upstream: an enrolled device is served.
use cc_mysub.Base.{
  ℕ, suc, ◌+◌, ◌*◌, ◌≤◌, ◌<◌, Bytes, true, length, Result, ok, err, List, [], ◌∷◌, ◌++◌, Option,
  some, ◌≡◌, ◌≢◌, inl, inr, refl, ap, subst, ◌∙◌,
}
use cc_mysub.Auth.Token.{Sha256, cert_fingerprint, has_inbound_credential}
use cc_mysub.Auth.Store.{Device, DeviceStore, Disk, lookup_device}
use cc_mysub.Auth.Store.Watch.{quiet}
use cc_mysub.Config.{ClientConfig, Upstream, pick_token}
use cc_mysub.Connect.Parse.{parse_connect}
use cc_mysub.Connect.Parse.Target.{target_of}
use cc_mysub.Enroll.{Error, File, content}
use cc_mysub.Enroll.Devices.{Codec, new_device}
use cc_mysub.Enroll.Run.{Dir, Host, Flags, run}
use cc_mysub.Enroll.Run.Access.{admits, labelled}
use cc_mysub.Mitm.{Signer, Minter, Cert, cert_for}
use cc_mysub.Mitm
use cc_mysub.Splitter.{chained_request}
use cc_mysub.Splitter.Chain.{chained_request-tunnel}
use cc_mysub.Stream.{has}
use cc_mysub.Proxy.Handle.{ForwardProxy, Conn, Outcome, tunnel, max_connect_header_bytes}
use cc_mysub.Proxy.Handle
use cc_mysub.Proxy.Usage.{Usage}
use cc_mysub.Proxy.Chain.{Request, Response, Outbound, Net, World, per_minute_of, serve}
use cc_mysub.Proxy.Chain.Swap.{IsSwapped}
use cc_mysub.Proxy.Chain.Passes.{PassesLimit, serve_passes}
use cc_mysub.Proxy.Session.{base_context, serve_requests, handshaken, tunnelled, serve_conn}
use cc_mysub.Proxy.Session.Identity.{stops_or, serve_requests-SendsFor}

module _ (up : Upstream) (net : Net) (usage : Response → Usage) where
  -- The first request of a connection, and what follows it.
  first_sent :
      (d : Device) (t : ℕ) (q : Request) (qs : List (ℕ × Request)) (w : World)
      → (out : Outbound) × ((serve up net usage t (base_context d) q w).0.sent ≡ out ∷ w.sent)
        × IsSwapped (pick_token up d.upstream) q out
      → (outs : List Outbound) × (out : Outbound) × ((serve_requests up net usage
            (base_context d)
            ((t, q) ∷ qs)
            w).sent
          ≡ outs ++ out ∷ w.sent)
        × IsSwapped (pick_token up d.upstream) q out
  unfolding serve_requests
  first_sent d t q qs w (out, e, s) =
      let res = serve up net usage t (base_context d) q w in
      let (outs, f, h) =
        stops_or up net usage d res.1.aborted qs res.0
          (serve_requests up net usage (base_context d) qs res.0)
          (serve_requests-SendsFor up net usage d qs res.0) in
      (outs, out, f ∙ ap (λ x. outs ++ x) e, s)

module _ (up : Upstream) (net : Net) (usage : Response → Usage) (signer : Signer) (now : ℕ)
    (inner : Bytes → Cert → List (ℕ × Request)) where
  handshaken-ok :
      (d : Device) (rest : Bytes) (w : World) (c : Cert) (r : Minter × Result Mitm.Error Cert)
      → r.1 ≡ ok c
      → (handshaken up net usage signer now inner d rest w r).1
        ≡ serve_requests up net usage (base_context d) (inner rest c) w
  unfolding handshaken
  handshaken-ok d rest w c (m, ok e) h =
      let same : e ≡ c = cc in
      ap (λ x. serve_requests up net usage (base_context d) (inner rest x) w) same
  handshaken-ok d rest w c (m, err e) h = cc

  serve_conn-tunnel :
      (sha : Sha256) (fp : ForwardProxy) (conn : Conn) (m : Minter) (w : World) (d : Device)
      (host rest : Bytes) (c : Cert)
      → Handle.handle sha fp conn ≡ tunnel d host rest
      → (cert_for signer m host now).1 ≡ ok c
      → (serve_conn up net usage signer now inner sha fp conn m w).1
        ≡ serve_requests up net usage (base_context d) (inner rest c) w
  unfolding serve_conn
  serve_conn-tunnel sha fp conn m w d host rest c h k =
      ap (λ (o : Outcome). (tunnelled up net usage signer now inner m w o).1) h
      ∙ unfold tunnelled in handshaken-ok d rest w c (cert_for signer m host now) k

-- The limit looks at the label and the number of requests only.
passes_same :
    (d e : Device) (t : ℕ) (q : Request) (w : World)
    → d.label ≡ e.label
    → d.rate_limit ≡ e.rate_limit
    → PassesLimit e t q w
    → PassesLimit d t q w
passes_same d e t q w l r (inl x) = inl x
passes_same d e t q w l r (inr a) =
    inr (unfold per_minute_of in rw (l, r) (unfold per_minute_of in a))

module _ (sha : Sha256) (pem_decode : Bytes → Option Bytes) (codec : Codec) (host : Host)
    (flags : Flags) (cfg : Result Error (Option ClientConfig)) (cert : File) (dir : Dir)
    (fp b : Bytes) (done : (run sha pem_decode codec host flags cfg cert dir).1 ≡ ok fp)
    (devices : (run sha pem_decode codec host flags cfg cert dir).0.devices ≡ content b)
    (disk : Disk) (mtime : ℕ) (stat : disk.stat ≡ some mtime) (content_now : disk.content ≡ some b)
    (s : DeviceStore) (n : ℕ) (newer : s.last_mod < mtime) where
  module _ (up : Upstream) (net : Net) (usage : Response → Usage) (signer : Signer) (now : ℕ)
      (inner : Bytes → Cert → List (ℕ × Request)) (proxy : ForwardProxy)
      (polled : proxy.auth ≡ quiet codec.decode (suc n) disk s) where
    -- After an add-device that succeeded, a rotation or not, a proxy polls the file that was written,
    -- with a later time than the last one it loaded. A client whose certificate has the enrolled
    -- fingerprint sends the request that the splitter writes for a line that names an allowed host, of
    -- at most about 4 KB. If the proxy can write its answer, has a certificate for the host and a token
    -- for the pool id of the command line, and the first request in the tunnel has a credential and is
    -- within the limit or exempt from it, then that request is sent upstream, with the token as its
    -- only Authorization value and no X-Api-Key.
    pub enrolled_served :
        (conn : Conn) (m : Minter) (w : World) (der line host' r : Bytes) (c : Cert) (t : ℕ)
        (q : Request) (qs : List (ℕ × Request))
        → conn.cert ≡ some der
        → cert_fingerprint sha der ≡ fp
        → conn.accepts_write ≡ true
        → has proxy.allow host' ≡ true
        → parse_connect line ≡ some host'
        → 2 * length (target_of line) + 29 ≤ max_connect_header_bytes
        → conn.input ≡ chained_request (target_of line) ++ r
        → (cert_for signer m host' now).1 ≡ ok c
        → inner r c ≡ (t, q) ∷ qs
        → has_inbound_credential q.header ≡ true
        → pick_token up flags.params.upstream ≢ []
        → PassesLimit (new_device flags.params fp) t q w
        → (outs : List Outbound) × (out : Outbound) × ((serve_conn up net usage signer now inner sha
              proxy conn m w).1.sent
            ≡ outs ++ out ∷ w.sent)
          × IsSwapped (pick_token up flags.params.upstream) q out
    enrolled_served conn m w der line host' r c t q qs k f a al p le i ce rq cr tok lim =
        let (d, look, dl, du, dr) =
          admits sha pem_decode codec host flags cfg cert dir fp b done devices disk mtime stat
            content_now s n newer in
        let found : lookup_device proxy.auth (cert_fingerprint sha der) ≡ some d =
          rw (polled, f) look in
        let opened = chained_request-tunnel sha proxy conn der d line host' r k found a al p le i in
        let label = labelled sha pem_decode codec host flags cfg cert dir fp b done devices in
        let (outs, out, e, x) = first_sent up net usage d t q qs w (
          serve_passes up net usage t (base_context d) q w d refl (rw dl label) (rw du tok) cr
            (passes_same d (new_device flags.params fp) t q w dl dr lim)) in
        (
          outs,
          out,
          ap (λ (y : World). y.sent)
                (serve_conn-tunnel up net usage signer now inner sha proxy conn m w d host' r c
                    opened ce
                  ∙ ap (λ y. serve_requests up net usage (base_context d) y w) rq)
              ∙ e,
          subst (λ y. IsSwapped (pick_token up y) q out) du x,
        )
