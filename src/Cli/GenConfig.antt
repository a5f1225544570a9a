-- ===== src/Cli/GenConfig.antt =====
-- runGenConfig of cmd/cc-mysub/genconfig.go: the configuration that the operator publishes for the
-- devices. `encode` is the JSON encoder on the output.
pub mod Published
use cc_mysub.Base.{
  ℕ, Bytes, codes, Bool, true, false, is_empty, Result, ok, err, Option, none, some, if◌then◌else◌,
}
use cc_mysub.Config.{Config, ClientConfig, Error}
use cc_mysub.Cli.Startup.{public_host_of}

pub record DeployConfig : Type 0 where
  pub public_host : Bytes
  pub subscription_type : Bytes
  pub release_repo : Bytes
  pub release_tag : Bytes
  pub ca_cert_pem : Bytes

-- --release and --release-repo.
pub record GenFlags : Type 0 where
  pub release : Bytes
  pub repo : Bytes

-- The exit code, and the configuration that was written.
pub record Exit : Type 0 where
  pub code : ℕ
  pub written : Option DeployConfig

abbrev pub exit : ℕ → Exit
exit code = record { code = code; written = none }

abbrev pub default_repo : Bytes
default_repo = codes "redcontritio/cc-mysub"

abbrev pub or_else : Bytes → Bytes → Bytes
or_else value default = if is_empty value then default else value

abbrev pub deploy_config : GenFlags → ClientConfig → Bytes → DeployConfig
deploy_config flags client ca_pem = record {
  public_host = client.public_host;
  subscription_type = or_else client.subscription_type (codes "max");
  release_repo = or_else (or_else flags.repo client.release_repo) default_repo;
  release_tag = flags.release;
  ca_cert_pem = ca_pem;
}

module _ (encodes : DeployConfig → Bool) where
  encode : DeployConfig → Exit
  encode dc = if encodes dc then record { code = 0; written = some dc } else exit 1

  with_ca : GenFlags → ClientConfig → Option Bytes → Exit
  unfolding encode
  with_ca flags client none = exit 1
  with_ca flags client (some ca_pem) = encode (deploy_config flags client ca_pem)

  with_client : GenFlags → Option Bytes → Option ClientConfig → Exit
  unfolding with_ca is_empty
  with_client flags ca none = exit 1
  with_client flags ca (some client) =
      if is_empty client.public_host
      then exit 1
      else if is_empty flags.release
      then exit 1
      else with_ca flags client ca

  with_config : GenFlags → Option Bytes → Result Error Config → Exit
  unfolding with_client
  with_config flags ca (err e) = exit 1
  with_config flags ca (ok cfg) = with_client flags ca cfg.client

  -- The parsed flags, config.json as LoadConfig gives it, and ca.crt.
  unfoldable pub run_gen_config : Option GenFlags → Result Error Config → Option Bytes → Exit
  unfolding with_config
  run_gen_config none config ca = exit 2
  run_gen_config (some flags) config ca = with_config flags ca config
