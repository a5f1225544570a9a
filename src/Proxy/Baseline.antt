-- ===== src/Proxy/Baseline.antt =====
-- internal/proxy/baseline.go: warnings about requests and answers that deviate; nothing is refused.
use cc_mysub.Base.{
  ℕ, Bytes, codes, not, ◌&&◌, ◌||◌, ◌==◌, is_empty, has_prefix, contains, List, [], ◌∷◌, ◌++◌,
  if◌then◌else◌,
}
use cc_mysub.Http.{Header, get, authorization, x_api_key}
use cc_mysub.Auth.Token.{bearer}

abbrev pub anthropic_beta : Bytes
anthropic_beta = codes "Anthropic-Beta"

abbrev pub oauth_beta : Bytes
oauth_beta = codes "oauth-2025-04-20"

abbrev pub auth_structure_abnormal : Bytes
auth_structure_abnormal = codes "auth_structure_abnormal"

abbrev pub creds_in_xapikey : Bytes
creds_in_xapikey = codes "creds_in_xapikey"

abbrev pub missing_oauth_beta : Bytes
missing_oauth_beta = codes "missing_oauth_beta"

unfoldable pub check_inbound_baseline : Header → List Bytes
unfolding get is_empty has_prefix contains
check_inbound_baseline h =
    let auth = get h authorization in
    (if not (is_empty auth) && not (has_prefix auth bearer)
      then auth_structure_abnormal ∷ []
      else [])
    ++ ((if not (is_empty (get h x_api_key)) then creds_in_xapikey ∷ [] else [])
        ++ (if not (contains (get h anthropic_beta) oauth_beta)
            then missing_oauth_beta ∷ []
            else []))

abbrev pub upstream_auth_rejected : Bytes
upstream_auth_rejected = codes "upstream_auth_rejected"

unfoldable pub check_outbound_baseline : ℕ → Bytes
check_outbound_baseline status =
    if status == 401 || status == 403 then upstream_auth_rejected else []
