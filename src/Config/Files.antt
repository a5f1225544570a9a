-- ===== src/Config/Files.antt =====
-- What LoadConfig and LoadUpstream of internal/config/config.go read.
use cc_mysub.Base.{
  Bytes, codes, false, Bool-cases, is_empty, is_empty-true, nonempty, Result, ok, [], Option, none,
  some, Option-cases, ◌&&◌, >>=-eq-ok, ◌≡◌, ◌≢◌, ◌⊎◌, inl, inr, refl, sym, ap, ◌∙◌, if◌then◌else◌,
}
use cc_mysub.Config.{
  Config, Upstream, Error, decoded, check_upstream, check_pool, no_entries, default_listen,
  load_config, load_upstream, parse_upstream,
}
use cc_mysub.Config.Pool.{IsValid, parse_upstream_iff}

-- The address of config.json, or the default.
abbrev pub ListensAt : Config → Bytes → Type 0
ListensAt cfg address =
    ((cfg.listen ≢ []) × (address ≡ cfg.listen))
    ⊎ ((cfg.listen ≡ []) × (address ≡ codes "127.0.0.1:8788"))

-- config.json decodes, and what is loaded has its client and an address.
abbrev pub Configured : (Bytes → Option Config) → Option Bytes → Config → Config → Type 0
Configured decode file cfg loaded =
    (b : Bytes) × (file ≡ some b)
    × (decode b ≡ some cfg)
    × (loaded.client ≡ cfg.client)
    × ListensAt cfg loaded.listen

-- upstream.json decodes to a valid pool.
abbrev pub Pooled : (Bytes → Option Upstream) → Option Bytes → Upstream → Type 0
Pooled decode file u = (b : Bytes) × (file ≡ some b) × (decode b ≡ some u) × IsValid u

filled_in :
    (c loaded : Config)
    → (if is_empty c.listen then record c { listen = default_listen } else c) ≡ loaded
    → (loaded.client ≡ c.client) × ListensAt c loaded.listen
filled_in c loaded h = elim (Bool-cases (is_empty c.listen)) [
  | inl e ↦
      let same : record c { listen = default_listen } ≡ loaded = rw e at h in
      (
        sym (ap (λ (x : Config). x.client) same),
        inr (is_empty-true c.listen e, sym (ap (λ (x : Config). x.listen) same)),
      )
  | inr e ↦
      let same : c ≡ loaded = h' e in
      (
        sym (ap (λ (x : Config). x.client) same),
        inl (nonempty c.listen e, sym (ap (λ (x : Config). x.listen) same)),
      )
]
  where
    h' : is_empty c.listen ≡ false → c ≡ loaded
    h' e = sym (ap (λ b. if b then record c { listen = default_listen } else c) e) ∙ h

ok_same : {A : Type 0} (a b : A) → ◌≡◌ {A = Result Error A} (ok a) (ok b) → a ≡ b
ok_same a b h = cc

pub load_config-Configured :
    (decode : Bytes → Option Config) (file : Option Bytes) (loaded : Config)
    → load_config decode file ≡ ok loaded
    → (cfg : Config) × Configured decode file cfg loaded
unfolding load_config decoded
load_config-Configured decode none loaded h = cc
load_config-Configured decode (some b) loaded h = elim (Option-cases (decode b)) [
  | inl e ↦ cc (rw e at h)
  | inr (c, e) ↦
      let same =
        ok_same (if is_empty c.listen then record c { listen = default_listen } else c) loaded
          (rw e at h) in
      let (f, g) = filled_in c loaded same in (c, (b, refl, e, f, g))
]

-- What is accepted is what was decoded.
check_upstream-same : (v u : Upstream) → check_upstream v ≡ ok u → v ≡ u
unfolding check_upstream
check_upstream-same v u h =
    elim (Bool-cases (is_empty v.oauth_token && no_entries v.oauth_tokens)) [
      | inl e ↦ cc (rw e at h)
      | inr e ↦
          let (t, f, same) = >>=-eq-ok (check_pool 0 [] v.oauth_tokens) (λ _. ok v) (rw e at h) in
          ok_same v u same
    ]

pub load_upstream-Pooled :
    (decode : Bytes → Option Upstream) (file : Option Bytes) (u : Upstream)
    → load_upstream decode file ≡ ok u
    → Pooled decode file u
unfolding load_upstream parse_upstream decoded
load_upstream-Pooled decode none u h = cc
load_upstream-Pooled decode (some b) u h = elim (Option-cases (decode b)) [
  | inl e ↦ cc (rw e at h)
  | inr (v, e) ↦
      let same = check_upstream-same v u (rw e at h) in
      let g = e ∙ ap (λ x. some x) same in (b, refl, g, (parse_upstream_iff decode b u g).0 h)
]
