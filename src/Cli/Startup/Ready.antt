-- ===== src/Cli/Startup/Ready.antt =====
-- What a process that serves has, read off the files.
use cc_mysub.Base.{
  Bytes, codes, true, nonempty, ok, Elem, [], some, ◌≡◌, ◌≢◌, ◌⊎◌, ◌↔◌, inl, inr, sym, ap, subst,
  ◌∙◌,
}
use cc_mysub.Auth.Store.{Device, DeviceStore, reload}
use cc_mysub.Auth.Store
use cc_mysub.Auth.Store.Watch.{ReloadCases, reload_cases}
use cc_mysub.Config.{Config, ClientConfig}
use cc_mysub.Config.Files.{Configured, Pooled, load_config-Configured, load_upstream-Pooled}
use cc_mysub.Mitm.Authority.{Crypto}
use cc_mysub.Mitm.Authority.Loading
use cc_mysub.Proxy.OuterCert.First.{Presents, get-Presents}
use cc_mysub.Stream.{has}
use cc_mysub.Stream.Laws.{set_of_iff}
use cc_mysub.Cli.Startup.{Decoders, World, Serving, allowed_hosts, start_server}
use cc_mysub.Cli.Startup.Loads.{start_server-Loads}

pub record Ready (d : Decoders) (x : Crypto) (w : World) (s : Serving) : Type 0 where
  pub cfg : Config
  pub loaded : Config
  pub client : ClientConfig
  pub configured : Configured d.config w.config_json cfg loaded
  pub address : s.address ≡ loaded.listen
  pub binds : w.listens s.address ≡ true
  pub has_client : cfg.client ≡ some client
  pub host_given : client.public_host ≢ []
  pub identity : s.identity ≡ client.public_host
  pub presents : Presents (w.outer client.public_host) s.outer_cert
  pub pooled : Pooled d.upstream w.upstream_json s.upstream
  pub devices : ReloadCases d.devices s.proxy.auth w.devices_json
  pub cert_pem : Bytes
  pub key_pem : Bytes
  pub reads_crt : w.ca_crt ≡ some cert_pem
  pub reads_key : w.ca_key ≡ some key_pem
  pub authority : Loading.Holds x cert_pem key_pem s.ca
  pub mints : (s.minter.ttl ≡ 3_600_000_000_000) × (s.minter.cache ≡ [])
  pub allows :
      (h : Bytes)
      → (has s.proxy.allow h ≡ true)
        ↔ ((h ≡ codes "api.anthropic.com") ⊎ (h ≡ codes "console.anthropic.com"))
  pub limit : (s.server.max_in_flight ≡ 512) × (s.server.sema ≡ 0)

reload-ok :
    (d : Store.Decoder) (disk : Store.Disk) (s : DeviceStore)
    → reload d disk ≡ ok s
    → ReloadCases d s disk
reload-ok d disk s h = elim (reload_cases d disk) [
  | inl (e, f) ↦ cc
  | inr (t, f, c) ↦ let same : t ≡ s = cc in subst (λ x. ReloadCases d x disk) same c
]

only_two :
    (h : Bytes)
    → Elem h allowed_hosts ↔ ((h ≡ codes "api.anthropic.com") ⊎ (h ≡ codes "console.anthropic.com"))
only_two h = (
  λ m. elim m [ inl e ↦ inl e | inr (inl e) ↦ inr e | inr (inr a) ↦ absurd a ],
  λ m. elim m [ inl e ↦ inl e | inr e ↦ inr (inl e) ],
)

-- If the process comes to serve: config.json decodes to a client with a public host, and it listens at
-- the address given there or else at 127.0.0.1:8788; upstream.json decodes to a valid pool, and
-- devices.json to rows by which the whitelist answers; ca.crt and ca.key hold a CA's certificate,
-- without key usages or with that of signing certificates, and a key; the outer certificate is that of
-- the public host's files, with their time; leaves are minted for an hour; exactly api.anthropic.com
-- and console.anthropic.com are allowed; and no slot of 512 is taken.
pub start_server-Ready :
    (d : Decoders) (x : Crypto) (w : World) (s : Serving)
    → start_server d x w ≡ ok s
    → Ready d x w s
start_server-Ready d x w s h =
    let v = start_server-Loads d x w s h in
    let (cfg, c) = load_config-Configured d.config w.config_json v.cfg v.loads_config in
    let (b, r, e, same, listens) = c in
    let auth = ap (λ (t : Serving). t.proxy.auth) v.serves in
    let address = ap (λ (t : Serving). t.address) v.serves in
    let allow = ap (λ (t : Serving). t.proxy.allow) v.serves in
    record {
      cfg = cfg;
      loaded = v.cfg;
      client = v.client;
      configured = c;
      address = address;
      binds = ap w.listens address ∙ v.binds;
      has_client = sym same ∙ v.has_client;
      host_given = nonempty v.client.public_host v.has_host;
      identity = ap (λ (t : Serving). t.identity) v.serves;
      presents = get-Presents (w.outer v.client.public_host) s.outer_cert v.pair v.loads_outer;
      pooled = load_upstream-Pooled d.upstream w.upstream_json s.upstream v.loads_upstream;
      devices =
          subst (λ t. ReloadCases d.devices t w.devices_json) (sym auth)
            (reload-ok d.devices w.devices_json v.store v.loads_devices);
      cert_pem = v.cert_pem;
      key_pem = v.key_pem;
      reads_crt = v.reads_crt;
      reads_key = v.reads_key;
      authority = v.loads_ca;
      mints = (
        ap (λ (t : Serving). t.minter.ttl) v.serves,
        ap (λ (t : Serving). t.minter.cache) v.serves,
      );
      allows = λ k.
          let (a, b') = set_of_iff allowed_hosts k in
          let (f, g) = only_two k in
          (λ m. f (a (ap (λ t. has t k) (sym allow) ∙ m)), λ m. ap (λ t. has t k) allow ∙ b' (g m));
      limit = (
        ap (λ (t : Serving). t.server.max_in_flight) v.serves,
        ap (λ (t : Serving). t.server.sema) v.serves,
      );
    }
