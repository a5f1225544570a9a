-- ===== src/Cli/Helper.antt =====
-- runHelper of cmd/cc-mysub/helper.go: the local splitter and the child that is pointed at it. The TLS
-- pair's load, the listener and the child process are the environment's.
pub mod Child
use cc_mysub.Base.{
  ℕ, Bytes, codes, Bool, true, false, ◌||◌, ◌==◌, is_empty, List, [], ◌∷◌, ◌++◌, Option, none, some,
  if◌then◌else◌,
}
use cc_mysub.Splitter.{Splitter, new_splitter}

-- strings.Split on one byte: the piece read so far, and the bytes left.
unfoldable pub split_on : ℕ → Bytes → Bytes → List Bytes
split_on sep cur [] = cur ∷ []
split_on sep cur (c ∷ s) =
    if c == sep then cur ∷ split_on sep [] s else split_on sep (cur ++ c ∷ []) s

abbrev pub default_allow : Bytes
default_allow = codes "api.anthropic.com,console.anthropic.com"

pub record HelperFlags : Type 0 where
  pub host : Bytes
  pub client_cert : Bytes
  pub client_key : Bytes
  pub allow_csv : Bytes
  pub child : List Bytes

-- How the child ends: it succeeds, with an exit code, or it does not start.
pub data Ended : Type 0 where
  success : Ended
  exited : ℕ → Ended
  not_started : Ended

-- Whether the pair loads, the address that the listener is bound to, the environment, and the child.
pub record Env : Type 0 where
  pub loads_pair : Bool
  pub bound : Option Bytes
  pub environ : List Bytes
  pub ends : List Bytes → List Bytes → Ended

pub data Action : Type 0 where
  listen : Action
  serve : Splitter → Action
  exec : List Bytes → List Bytes → Action
  close : Action

abbrev pub proxy_variables : Bytes → List Bytes
proxy_variables address =
    let url = codes "http://" ++ address in
    (codes "HTTPS_PROXY=" ++ url)
    ∷ (codes "HTTP_PROXY=" ++ url)
    ∷ (codes "ALL_PROXY=" ++ url)
    ∷ codes "NODE_USE_ENV_PROXY=1"
    ∷ []

abbrev pub exit_code : Ended → ℕ
exit_code success = 0
exit_code (exited n) = n
exit_code not_started = 1

no_child : List Bytes → Bool
no_child [] = true
no_child (c ∷ cs) = false

with_listener : HelperFlags → Env → Option Bytes → List Action × ℕ
unfolding split_on new_splitter
with_listener flags env none = (listen ∷ [], 2)
with_listener flags env (some address) =
    let environ = env.environ ++ proxy_variables address in
    (
      listen
          ∷ serve (new_splitter flags.host (split_on b',' [] flags.allow_csv))
          ∷ exec flags.child environ
          ∷ close
          ∷ [],
      exit_code (env.ends flags.child environ),
    )

-- The parsed flags with the words behind `--`; the calls and the exit code.
unfoldable pub run_helper : Option HelperFlags → Env → List Action × ℕ
unfolding with_listener no_child is_empty
run_helper none env = ([], 2)
run_helper (some flags) env =
    if is_empty flags.host
      || (is_empty flags.client_cert || (is_empty flags.client_key || no_child flags.child))
    then ([], 2)
    else if env.loads_pair
    then with_listener flags env env.bound
    else ([], 2)
