-- ===== src/Config.antt =====
-- internal/config/config.go: config.json and the pool of setup-tokens of upstream.json. The JSON
-- decoders are parameters; a file is what os.ReadFile returns.
pub mod Pool
pub mod Files
use cc_mysub.Base.{
  ℕ, ◌+◌, Bytes, codes, Bool, true, false, ◌&&◌, ◌||◌, is_empty, equal, Dict, lookup, insert,
  Option, none, some, List, [], ◌∷◌, Result, ok, err, ◌>>=◌, if◌then◌else◌,
}

pub record ClientConfig : Type 0 where
  pub public_host : Bytes
  pub subscription_type : Bytes
  pub release_repo : Bytes

pub record Config : Type 0 where
  pub listen : Bytes
  pub client : Option ClientConfig

pub record UpstreamToken : Type 0 where
  pub id : Bytes
  pub token : Bytes

pub record Upstream : Type 0 where
  pub oauth_token : Bytes
  pub oauth_tokens : List UpstreamToken

pub data Error : Type 0 where
  read_config parse_config read_upstream parse_upstream_json no_oauth_token : Error
  empty_entry : ℕ → Error
  duplicate_id : Bytes → Error

-- The loop of PickToken over the pool.
unfoldable pub find_token : Bytes → List UpstreamToken → Bytes
unfolding equal
find_token id [] = []
find_token id (t ∷ ts) = if equal t.id id then t.token else find_token id ts

pick_from : Bytes → Bytes → List UpstreamToken → Bytes
unfolding find_token is_empty
pick_from legacy id [] = if is_empty id then legacy else []
pick_from legacy id (t ∷ ts) = if is_empty id then t.token else find_token id (t ∷ ts)

unfoldable pub pick_token : Upstream → Bytes → Bytes
unfolding pick_from
pick_token u id = pick_from u.oauth_token id u.oauth_tokens

-- seen[id]
abbrev pub is_seen : Dict Bool → Bytes → Bool
is_seen seen id = elim (lookup id seen) [ none ↦ false | some b ↦ b ]

-- The loop of parseUpstream: `i` is the index of the entry, `seen` the ids before it.
unfoldable pub check_pool : ℕ → Dict Bool → List UpstreamToken → Result Error (Unit {0})
unfolding is_empty lookup insert
check_pool i seen [] = ok tt
check_pool i seen (t ∷ ts) =
    let rest = check_pool (i + 1) (insert t.id true seen) ts in
    if is_empty t.id || is_empty t.token
    then err (empty_entry i)
    else if is_seen seen t.id
    then err (duplicate_id t.id)
    else rest

no_entries : List UpstreamToken → Bool
no_entries [] = true
no_entries (t ∷ ts) = false

unfoldable pub check_upstream : Upstream → Result Error Upstream
unfolding check_pool no_entries
check_upstream u =
    if is_empty u.oauth_token && no_entries u.oauth_tokens
    then err no_oauth_token
    else (check_pool 0 [] u.oauth_tokens >>= λ _. ok u)

decoded : {A : Type 0} → Error → Option A → Result Error A
decoded e none = err e
decoded e (some a) = ok a

unfoldable pub parse_upstream : (Bytes → Option Upstream) → Bytes → Result Error Upstream
unfolding check_upstream decoded
parse_upstream decode b = do u ← decoded parse_upstream_json (decode b); check_upstream u

unfoldable pub load_upstream : (Bytes → Option Upstream) → Option Bytes → Result Error Upstream
unfolding parse_upstream
load_upstream decode file = do b ← decoded read_upstream file; parse_upstream decode b

abbrev default_listen : Bytes
default_listen = codes "127.0.0.1:8788"

unfoldable pub load_config : (Bytes → Option Config) → Option Bytes → Result Error Config
unfolding decoded is_empty
load_config decode file = do
  b ← decoded read_config file
  c ← decoded parse_config (decode b)
  ok (if is_empty c.listen then record c { listen = default_listen } else c)
