-- ===== src/Tests/Startup.antt =====
-- Tests of the command line.
use cc_mysub.Base.{
  Bytes, codes, true, equal, is_empty, ok, List, [], ◌∷◌, Elem, some, ◌≡◌, inl, inr, refl,
}
use cc_mysub.Config.{Config, ClientConfig}
use cc_mysub.Mitm.{new_minter}
use cc_mysub.Proxy.Serve.{new_server}
use cc_mysub.Proxy.OuterCert.{get}
use cc_mysub.Auth.Store.{reload}
use cc_mysub.Auth.Token.{canonical_fingerprint}
use cc_mysub.Mitm.Authority.{hour, ca_template, said, load_ca}
use cc_mysub.Cli.{dispatch, gen_config}
use cc_mysub.Cli.Startup.{Decoders, World, Serving, start_server, allowed_hosts}
use cc_mysub.Cli.Startup.Ready.{Ready, start_server-Ready}
use cc_mysub.Cli.GenConfig.{GenFlags, run_gen_config}
use cc_mysub.Cli.GenConfig.Published.{Outcome, run_gen_config-Outcome}
use cc_mysub.Cli.Helper.{
  HelperFlags, success, split_on, default_allow, run_helper, exec, proxy_variables,
}
use cc_mysub.Cli.Helper
use cc_mysub.Cli.Helper.Child.{Serves, exec-Serves}
use cc_mysub.Tests.Data.{laptop}
use cc_mysub.Tests.Authority.{toy_crypto, der_of}

dispatch_words :
    dispatch (codes "gen-config" ∷ codes "--release" ∷ []) ≡ gen_config (codes "--release" ∷ [])
unfolding dispatch equal
dispatch_words = refl

abbrev client : ClientConfig
client = record { public_host = codes "proxy.example"; subscription_type = []; release_repo = [] }

abbrev config : Config
config = record { listen = codes "127.0.0.1:9"; client = some client }

abbrev decoders : Decoders
decoders = record {
  config = λ b. some config;
  upstream = λ b. some (record { oauth_token = codes "t"; oauth_tokens = [] });
  devices = λ b. some (laptop ∷ []);
}

abbrev world : World
world = record {
  config_json = some [];
  upstream_json = some [];
  devices_json = record { stat = some 3; content = some [] };
  ca_crt = some (der_of (ca_template (codes "ca") 1 0) (codes "key"));
  ca_key = some (codes "key");
  outer = λ host. record { stat = some 5; pair = some host };
  listens = λ address. true;
}

abbrev serving : Serving
serving = record {
  address = codes "127.0.0.1:9";
  identity = codes "proxy.example";
  ca = record { cert = said (ca_template (codes "ca") 1 0) (codes "key"); signer = codes "key" };
  minter = new_minter hour;
  upstream = record { oauth_token = codes "t"; oauth_tokens = [] };
  outer_cert = record { cached = some (codes "proxy.example"); mod_time = 5 };
  proxy = record {
    auth = record { by_hash = (laptop.cert_sha256, laptop) ∷ []; last_mod = 3 };
    allow = (codes "api.anthropic.com", true) ∷ (codes "console.anthropic.com", true) ∷ [];
  };
  server = new_server 512;
}

started : start_server decoders toy_crypto world ≡ ok serving
unfolding start_server load_ca get reload canonical_fingerprint is_empty equal
started = refl

start_server-Ready_example : Ready decoders toy_crypto world serving
start_server-Ready_example = start_server-Ready decoders toy_crypto world serving started

abbrev helper_flags : HelperFlags
helper_flags = record {
  host = codes "proxy.example";
  client_cert = codes "device.crt";
  client_key = codes "device.key";
  allow_csv = default_allow;
  child = codes "claude" ∷ [];
}

abbrev helper_env : Helper.Env
helper_env = record {
  loads_pair = true;
  bound = some (codes "127.0.0.1:5");
  environ = codes "HOME=/" ∷ [];
  ends = λ child environ. success;
}

split_default : split_on b',' [] default_allow ≡ allowed_hosts
unfolding split_on
split_default = refl

abbrev environ : List Bytes
environ = codes "HOME=/" ∷ proxy_variables (codes "127.0.0.1:5")

execs : Elem (exec (codes "claude" ∷ []) environ) (run_helper (some helper_flags) helper_env).0
unfolding run_helper
execs = inr (inr (inl refl))

exec-Serves_example :
    Serves helper_flags helper_env
      (codes "claude" ∷ [])
      environ
      (run_helper (some helper_flags) helper_env)
exec-Serves_example = exec-Serves helper_flags helper_env (codes "claude" ∷ []) environ execs

abbrev gen_flags : GenFlags
gen_flags = record { release = codes "v1"; repo = [] }

run_gen_config-Outcome_example :
    Outcome
      (λ dc. true)
      gen_flags
      (ok config)
      (some (codes "pem"))
      (run_gen_config (λ dc. true) (some gen_flags) (ok config) (some (codes "pem")))
run_gen_config-Outcome_example =
    run_gen_config-Outcome (λ dc. true) gen_flags (ok config) (some (codes "pem"))
