-- ===== src/Cli/Startup.antt =====
-- main of cmd/cc-mysub/main.go without a subcommand: what is loaded, in this order, before the server
-- listens. Every error ends the process with exit code 1.
pub mod Loads
pub mod Ready
use cc_mysub.Base.{
  ℕ, Bytes, codes, Bool, true, false, is_empty, Result, ok, err, ◌>>=◌, of_option, map_err, List,
  [], ◌∷◌, Option, none, some, if◌then◌else◌,
}
use cc_mysub.Auth.Store.{DeviceStore, Decoder, new_device_store}
use cc_mysub.Auth.Store
use cc_mysub.Config.{Config, ClientConfig, Upstream, load_config, load_upstream}
use cc_mysub.Config
use cc_mysub.Mitm.{Minter, new_minter, minute}
use cc_mysub.Mitm.Authority.{Crypto, Ca, load_ca, hour}
use cc_mysub.Mitm.Authority
use cc_mysub.Proxy.Handle.{ForwardProxy, new_forward_proxy}
use cc_mysub.Proxy.OuterCert.{Loader, new_outer_cert_loader, get}
use cc_mysub.Proxy.OuterCert
use cc_mysub.Proxy.Serve.{Server, new_server}

-- The JSON decoders.
pub record Decoders : Type 0 where
  pub config : Bytes → Option Config
  pub upstream : Bytes → Option Upstream
  pub devices : Decoder

-- What the configuration directory holds, for each public host the files of its outer certificate, and
-- the addresses that net.Listen takes.
pub record World : Type 0 where
  pub config_json : Option Bytes
  pub upstream_json : Option Bytes
  pub devices_json : Store.Disk
  pub ca_crt : Option Bytes
  pub ca_key : Option Bytes
  pub outer : Bytes → OuterCert.Disk
  pub listens : Bytes → Bool

pub data Error : Type 0 where
  load_config_error : Config.Error → Error
  load_upstream_error : Config.Error → Error
  load_devices_error : Store.Error → Error
  read_ca_crt read_ca_key : Error
  load_ca_error : Authority.Error → Error
  public_host_required : Error
  load_outer_cert_error : OuterCert.Error → Error
  panics : Error
  listen_error : Error

-- The process once it serves.
pub record Serving : Type 0 where
  pub address : Bytes
  pub identity : Bytes
  pub ca : Ca
  pub minter : Minter
  pub upstream : Upstream
  pub outer_cert : Loader
  pub proxy : ForwardProxy
  pub server : Server

abbrev pub allowed_hosts : List Bytes
allowed_hosts = codes "api.anthropic.com" ∷ codes "console.anthropic.com" ∷ []

abbrev pub max_in_flight : ℕ
max_in_flight = 512

-- cfg.Client == nil || cfg.Client.PublicHost == ""
abbrev pub public_host_of : Option ClientConfig → Option Bytes
public_host_of none = none
public_host_of (some c) = if is_empty c.public_host then none else some c.public_host

abbrev pub first_cert : OuterCert.Disk → Result OuterCert.Error Loader
first_cert disk =
    (get new_outer_cert_loader disk).1 >>= λ pair. ok (get new_outer_cert_loader disk).0

abbrev pub listening : Bool → Result Error (Unit {0})
listening true = ok tt
listening false = err listen_error

module _ (d : Decoders) (x : Crypto) where
  unfoldable pub start_server : World → Result Error Serving
  unfolding load_config load_upstream load_ca new_forward_proxy
  start_server w = do
    cfg ← map_err load_config_error (load_config d.config w.config_json)
    up ← map_err load_upstream_error (load_upstream d.upstream w.upstream_json)
    store ← map_err load_devices_error (new_device_store d.devices w.devices_json)
    ca_cert ← of_option read_ca_crt w.ca_crt
    ca_key ← of_option read_ca_key w.ca_key
    ca ← map_err load_ca_error (load_ca x ca_cert ca_key)
    host ← of_option public_host_required (public_host_of cfg.client)
    outer ← map_err load_outer_cert_error (first_cert (w.outer host))
    fp ← of_option panics (new_forward_proxy store allowed_hosts true max_in_flight)
    bound ← listening (w.listens cfg.listen)
    ok (record {
      address = cfg.listen;
      identity = host;
      ca = ca;
      minter = new_minter hour;
      upstream = up;
      outer_cert = outer;
      proxy = fp;
      server = new_server max_in_flight;
    })
