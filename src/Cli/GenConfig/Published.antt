-- ===== src/Cli/GenConfig/Published.antt =====
-- What gen-config publishes.
use cc_mysub.Base.{
  Bytes, codes, Bool, false, Bool-cases, is_empty, is_empty-true, nonempty, List, [], ◌∷◌, ◌≢◌, sym,
  Result, ok, err, Option, none, some, ◌≡◌, ◌⊎◌, inl, inr, refl, subst,
}
use cc_mysub.Config.{Config, ClientConfig, Error}
use cc_mysub.Cli.GenConfig.{
  DeployConfig, GenFlags, Exit, exit, default_repo, or_else, deploy_config, encode, with_ca,
  with_client, with_config, run_gen_config,
}

-- The first of the values that is not empty.
abbrev pub FirstOf : List Bytes → Bytes → Type 0
FirstOf [] v = v ≡ []
FirstOf (a ∷ more) v = ((a ≢ []) × (v ≡ a)) ⊎ ((a ≡ []) × FirstOf more v)

-- The configuration for the flags, config.json's client and the content of ca.crt.
pub record Describes (flags : GenFlags) (client : ClientConfig) (ca_pem : Bytes) (dc : DeployConfig)
    : Type 0 where
  pub host : dc.public_host ≡ client.public_host
  pub host_given : client.public_host ≢ []
  pub subscription : FirstOf (client.subscription_type ∷ codes "max" ∷ []) dc.subscription_type
  pub repo :
      FirstOf
        (flags.repo ∷ client.release_repo ∷ codes "redcontritio/cc-mysub" ∷ [])
        dc.release_repo
  pub tag : dc.release_tag ≡ flags.release
  pub tag_given : flags.release ≢ []
  pub ca : dc.ca_cert_pem ≡ ca_pem

-- Written with exit code 0.
abbrev pub Published : GenFlags → Result Error Config → Option Bytes → Exit → Type 0
Published flags config ca exit =
    (cfg : Config) × (client : ClientConfig) × (ca_pem : Bytes) × (dc : DeployConfig) × (config
      ≡ ok cfg)
    × (cfg.client ≡ some client)
    × (ca ≡ some ca_pem)
    × Describes flags client ca_pem dc
    × (exit.code ≡ 0)
    × (exit.written ≡ some dc)

-- Why nothing is published.
pub data Missing (encodes : DeployConfig → Bool) (flags : GenFlags) (config : Result Error Config)
    (ca : Option Bytes) : Type 0 where
  no_config : (e : Error) → config ≡ err e → Missing encodes flags config ca
  no_client : (cfg : Config) → config ≡ ok cfg → cfg.client ≡ none → Missing encodes flags config ca
  no_host :
      (cfg : Config) (client : ClientConfig)
      → config ≡ ok cfg
      → cfg.client ≡ some client
      → client.public_host ≡ []
      → Missing encodes flags config ca
  no_release : flags.release ≡ [] → Missing encodes flags config ca
  no_ca : ca ≡ none → Missing encodes flags config ca
  unwritable :
      (cfg : Config) (client : ClientConfig) (ca_pem : Bytes) (dc : DeployConfig)
      → config ≡ ok cfg
      → cfg.client ≡ some client
      → ca ≡ some ca_pem
      → Describes flags client ca_pem dc
      → encodes dc ≡ false
      → Missing encodes flags config ca

abbrev pub Refused :
    (DeployConfig → Bool) → GenFlags → Result Error Config → Option Bytes → Exit → Type 0
Refused encodes flags config ca e =
    (e.code ≡ 1) × (e.written ≡ none) × Missing encodes flags config ca

or_else-First :
    (value default : Bytes) (more : List Bytes)
    → FirstOf more default
    → FirstOf (value ∷ more) (or_else value default)
or_else-First value default more h = elim (Bool-cases (is_empty value)) [
  | inl e ↦ inr (is_empty-true value e, rw e h)
  | inr e ↦ inl (nonempty value e, rw e refl)
]

last_First : (a : Bytes) → a ≢ [] → FirstOf (a ∷ []) a
last_First a n = inl (n, refl)

first_default : (a b c : Bytes) → or_else (or_else a b) c ≡ or_else a (or_else b c)
first_default a b c = elim (Bool-cases (is_empty a)) [ inl e ↦ rw e refl | inr e ↦ rw (e, e) refl ]

deploy_config-Describes :
    (flags : GenFlags) (client : ClientConfig) (ca_pem : Bytes)
    → client.public_host ≢ []
    → flags.release ≢ []
    → Describes flags client ca_pem (deploy_config flags client ca_pem)
deploy_config-Describes flags client ca_pem h r = record {
  host = refl;
  host_given = h;
  subscription =
      or_else-First client.subscription_type (codes "max") (codes "max" ∷ [])
        (last_First (codes "max") (λ e. cc));
  repo =
      subst (FirstOf (flags.repo ∷ client.release_repo ∷ default_repo ∷ []))
        (sym (first_default flags.repo client.release_repo default_repo))
        (or_else-First flags.repo (or_else client.release_repo default_repo)
          (client.release_repo ∷ default_repo ∷ [])
          (or_else-First client.release_repo default_repo (default_repo ∷ [])
            (last_First default_repo (λ e. cc))));
  tag = refl;
  tag_given = r;
  ca = refl;
}

module _ (encodes : DeployConfig → Bool) (flags : GenFlags) where
  abbrev pub Outcome : Result Error Config → Option Bytes → Exit → Type 0
  Outcome config ca exit = Published flags config ca exit ⊎ Refused encodes flags config ca exit

  with_ca-Outcome :
      (cfg : Config) (ca : Option Bytes) (c : ClientConfig)
      → cfg.client ≡ some c
      → c.public_host ≢ []
      → flags.release ≢ []
      → Outcome (ok cfg) ca (with_ca encodes flags c ca)
  unfolding with_ca encode
  with_ca-Outcome cfg none c e h r = inr (refl, refl, no_ca refl)
  with_ca-Outcome cfg (some p) c e h r =
      let dc = deploy_config flags c p in
      let v = deploy_config-Describes flags c p h r in
      elim (Bool-cases (encodes dc)) [
        | inr o ↦ rw o (inr (refl, refl, unwritable cfg c p dc refl e refl v o))
        | inl o ↦ rw o (inl (cfg, c, p, dc, refl, e, refl, v, refl, refl))
      ]

  with_client-Outcome :
      (cfg : Config) (ca : Option Bytes) (c : Option ClientConfig)
      → cfg.client ≡ c
      → Outcome (ok cfg) ca (with_client encodes flags ca c)
  unfolding with_client
  with_client-Outcome cfg ca none e = inr (refl, refl, no_client cfg refl e)
  with_client-Outcome cfg ca (some c) e = elim (Bool-cases (is_empty c.public_host)) [
    | inl h ↦ rw h (inr (refl, refl, no_host cfg c refl e (is_empty-true c.public_host h)))
    | inr h ↦ elim (Bool-cases (is_empty flags.release)) [
      | inl r ↦ rw (h, r) (inr (refl, refl, no_release (is_empty-true flags.release r)))
      | inr r ↦
          let step : with_ca encodes flags c ca ≡ with_client encodes flags ca (some c) =
            rw (h, r) in
          subst (Outcome (ok cfg) ca) step
            (with_ca-Outcome cfg ca c e (nonempty c.public_host h) (nonempty flags.release r))
    ]
  ]

  -- gen-config either writes a configuration and exits with 0, whose host is that of config.json and
  -- not empty, whose subscription is config.json's or else max, whose repository is the flag's, or else
  -- config.json's, or else redcontritio/cc-mysub, whose tag is --release, not empty, and whose CA is
  -- the content of ca.crt; or it writes none and exits with 1, since config.json does not load, or has
  -- no client or no host, the release is not given, ca.crt cannot be read, or that configuration cannot
  -- be encoded.
  pub run_gen_config-Outcome :
      (config : Result Error Config) (ca : Option Bytes)
      → Outcome config ca (run_gen_config encodes (some flags) config ca)
  unfolding run_gen_config with_config
  run_gen_config-Outcome (err e) ca = inr (refl, refl, no_config e refl)
  run_gen_config-Outcome (ok cfg) ca = with_client-Outcome cfg ca cfg.client refl
