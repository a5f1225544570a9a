-- ===== src/Cli/Startup/Loads.antt =====
-- When the process comes to serve, and as what.
use cc_mysub.Base.{
  Bytes, Bool, true, false, Bool-cases, is_empty, Result, ok, err, ◌>>=◌, >>=-eq-ok, of_option,
  of_option-ok, map_err, map_err-ok, [], Option, none, some, ◌≡◌, ◌↔◌, inl, inr, refl, sym, ap,
  subst, ◌∙◌,
}
use cc_mysub.Auth.Store.{DeviceStore, new_device_store}
use cc_mysub.Config.{Config, ClientConfig, load_config, load_upstream}
use cc_mysub.Mitm.{new_minter}
use cc_mysub.Mitm.Authority.{Crypto, load_ca, hour}
use cc_mysub.Mitm.Authority.Loading
use cc_mysub.Mitm.Authority.Loading.{load_ca_iff}
use cc_mysub.Proxy.Handle.{new_forward_proxy}
use cc_mysub.Proxy.OuterCert.{Loader, new_outer_cert_loader, get}
use cc_mysub.Proxy.OuterCert
use cc_mysub.Proxy.Serve.{new_server}
use cc_mysub.Stream.{set_of}
use cc_mysub.Cli.Startup.{
  Decoders, World, Error, load_config_error, load_upstream_error, load_devices_error, read_ca_crt,
  read_ca_key, load_ca_error, public_host_required, load_outer_cert_error, Serving, allowed_hosts,
  public_host_of, first_cert, listening, start_server,
}

-- A world with every part in order, and the process that serves from it.
pub record Loads (d : Decoders) (x : Crypto) (w : World) (s : Serving) : Type 0 where
  pub cfg : Config
  pub client : ClientConfig
  pub store : DeviceStore
  pub cert_pem : Bytes
  pub key_pem : Bytes
  pub pair : Bytes
  pub loads_config : load_config d.config w.config_json ≡ ok cfg
  pub loads_upstream : load_upstream d.upstream w.upstream_json ≡ ok s.upstream
  pub loads_devices : new_device_store d.devices w.devices_json ≡ ok store
  pub reads_crt : w.ca_crt ≡ some cert_pem
  pub reads_key : w.ca_key ≡ some key_pem
  pub loads_ca : Loading.Holds x cert_pem key_pem s.ca
  pub has_client : cfg.client ≡ some client
  pub has_host : is_empty client.public_host ≡ false
  pub loads_outer : get new_outer_cert_loader (w.outer client.public_host) ≡ (s.outer_cert, ok pair)
  pub binds : w.listens cfg.listen ≡ true
  pub serves : s ≡ record {
    address = cfg.listen;
    identity = client.public_host;
    ca = s.ca;
    minter = new_minter hour;
    upstream = s.upstream;
    outer_cert = s.outer_cert;
    proxy = record { auth = store; allow = set_of allowed_hosts [] };
    server = new_server 512;
  }

public_host_of-some :
    (c : Option ClientConfig) (host : Bytes)
    → public_host_of c ≡ some host
    → (client : ClientConfig) × (c ≡ some client)
      × (is_empty client.public_host ≡ false)
      × (client.public_host ≡ host)
public_host_of-some none host h = cc
public_host_of-some (some c) host h = elim (Bool-cases (is_empty c.public_host)) [
  | inl e ↦ cc (rw e at h)
  | inr e ↦ let k : some c.public_host ≡ some host = rw e at h in (c, refl, e, cc)
]

kept_pair :
    (q : Loader × Result OuterCert.Error Bytes) (l : Loader)
    → (q.1 >>= λ pair. ok q.0) ≡ ok l
    → (pair : Bytes) × (q ≡ (l, ok pair))
kept_pair (m, ok pair) l h = let same : m ≡ l = cc in (pair, ap (λ (k : Loader). (k, ok pair)) same)
kept_pair (m, err e) l h = cc

first_cert-ok :
    (disk : OuterCert.Disk) (l : Loader)
    → first_cert disk ≡ ok l
    → (pair : Bytes) × (get new_outer_cert_loader disk ≡ (l, ok pair))
first_cert-ok disk l h = kept_pair (get new_outer_cert_loader disk) l h

listening-ok : (b : Bool) (t : Unit {0}) → listening b ≡ ok t → b ≡ true
listening-ok true t h = refl
listening-ok false t h = cc

same_serving : (s t : Serving) → ◌≡◌ {A = Result Error Serving} (ok s) (ok t) → s ≡ t
same_serving s t h = cc

module _ (d : Decoders) (x : Crypto) where
  Loads-start_server : (w : World) (s : Serving) → Loads d x w s → start_server d x w ≡ ok s
  unfolding start_server new_forward_proxy
  Loads-start_server w s v =
      rw
        (
          v.loads_config,
          v.loads_upstream,
          v.loads_devices,
          v.reads_crt,
          v.reads_key,
          (load_ca_iff x v.cert_pem v.key_pem s.ca).1 v.loads_ca,
          v.has_client,
          v.has_host,
          v.loads_outer,
          v.binds,
        )
        (ap (λ (t : Serving). ok t) (sym v.serves))

  pub start_server-Loads : (w : World) (s : Serving) → start_server d x w ≡ ok s → Loads d x w s
  unfolding start_server new_forward_proxy
  start_server-Loads w s h =
      let (cfg, e1, h1) =
        >>=-eq-ok (map_err load_config_error (load_config d.config w.config_json)) _ h in
      let (up, e2, h2) =
        >>=-eq-ok (map_err load_upstream_error (load_upstream d.upstream w.upstream_json)) _ h1 in
      let (store, e3, h3) =
        >>=-eq-ok (map_err load_devices_error (new_device_store d.devices w.devices_json)) _ h2 in
      let (crt, e4, h4) = >>=-eq-ok (of_option read_ca_crt w.ca_crt) _ h3 in
      let (key, e5, h5) = >>=-eq-ok (of_option read_ca_key w.ca_key) _ h4 in
      let (ca, e6, h6) = >>=-eq-ok (map_err load_ca_error (load_ca x crt key)) _ h5 in
      let (host, e7, h7) =
        >>=-eq-ok (of_option public_host_required (public_host_of cfg.client)) _ h6 in
      let (outer, e8, h8) =
        >>=-eq-ok (map_err load_outer_cert_error (first_cert (w.outer host))) _ h7 in
      let (t, e9, h9) = >>=-eq-ok (listening (w.listens cfg.listen)) _ h8 in
      let (client, c, n, same) =
        public_host_of-some cfg.client host (of_option-ok public_host_required _ host e7) in
      let (pair, g) =
        first_cert-ok (w.outer host) outer (map_err-ok load_outer_cert_error _ outer e8) in
      let made : Bytes → Serving = λ identity. record {
        address = cfg.listen;
        identity = identity;
        ca = ca;
        minter = new_minter hour;
        upstream = up;
        outer_cert = outer;
        proxy = record { auth = store; allow = set_of allowed_hosts [] };
        server = new_server 512;
      } in
      let equal_made : made client.public_host ≡ s = ap made same ∙ same_serving (made host) s h9 in
      subst (Loads d x w) equal_made (record {
        cfg = cfg;
        client = client;
        store = store;
        cert_pem = crt;
        key_pem = key;
        pair = pair;
        loads_config = map_err-ok load_config_error _ cfg e1;
        loads_upstream = map_err-ok load_upstream_error _ up e2;
        loads_devices = map_err-ok load_devices_error _ store e3;
        reads_crt = of_option-ok read_ca_crt _ crt e4;
        reads_key = of_option-ok read_ca_key _ key e5;
        loads_ca = (load_ca_iff x crt key ca).0 (map_err-ok load_ca_error _ ca e6);
        has_client = c;
        has_host = n;
        loads_outer = rw same g;
        binds = listening-ok (w.listens cfg.listen) t e9;
        serves = refl;
      })

  -- The process comes to serve exactly when every part loads.
  pub start_server_iff : (w : World) (s : Serving) → (start_server d x w ≡ ok s) ↔ Loads d x w s
  start_server_iff w s = (start_server-Loads w s, Loads-start_server w s)
