-- ===== src/Cli/Helper/Child.antt =====
-- What the child runs with.
use cc_mysub.Base.{
  ℕ, Bytes, codes, true, ◌==◌, Bool-cases, ==_iff, All, Lacks, Lacks-append, Elem, List, [], ◌∷◌,
  ◌++◌, append_assoc, append-nil, Option, none, some, ◌≡◌, ◌↔◌, subst, ◌⊎◌, inl, inr, refl, sym, ap,
  ◌∙◌, arith,
}
use cc_mysub.Stream.{has}
use cc_mysub.Stream.Laws.{set_of_iff}
use cc_mysub.Splitter.{Splitter, new_splitter}
use cc_mysub.Cli.Helper.{
  HelperFlags, Env, Ended, success, exited, not_started, Action, listen, serve, exec, close,
  proxy_variables, exit_code, split_on, with_listener, run_helper,
}

-- strings.Join
abbrev pub join : ℕ → List Bytes → Bytes
join sep [] = []
join sep (a ∷ []) = a
join sep (a ∷ b ∷ rest) = a ++ sep ∷ join sep (b ∷ rest)

split_nonempty :
    (sep : ℕ) (cur s : Bytes) → (a : Bytes) × (rest : List Bytes) × (split_on sep cur s ≡ a ∷ rest)
unfolding split_on
split_nonempty sep cur [] = (cur, [], refl)
split_nonempty sep cur (c ∷ s) = elim (Bool-cases (c == sep)) [
  | inl e ↦ (cur, split_on sep [] s, rw e)
  | inr e ↦ let (a, rest, h) = split_nonempty sep (cur ++ c ∷ []) s in (a, rest, rw e h)
]

join-cons :
    (sep : ℕ) (a : Bytes) (ps : List Bytes) (b : Bytes) (rest : List Bytes)
    → ps ≡ b ∷ rest
    → join sep (a ∷ ps) ≡ a ++ sep ∷ join sep ps
join-cons sep a ps b rest e = rw e

-- The pieces, joined, are the text.
join-split : (sep : ℕ) (cur s : Bytes) → join sep (split_on sep cur s) ≡ cur ++ s
unfolding split_on
join-split sep cur [] = sym (append-nil cur)
join-split sep cur (c ∷ s) = elim (Bool-cases (c == sep)) [
  | inl e ↦
      let (a, rest, h) = split_nonempty sep [] s in
      let same = (==_iff c sep).0 e in
      rw e (join-cons sep cur (split_on sep [] s) a rest h ∙ rw (join-split sep [] s, same))
  | inr e ↦ rw e (join-split sep (cur ++ c ∷ []) s ∙ append_assoc cur (c ∷ []) s)
]

split-Lacks : (sep : ℕ) (cur s : Bytes) → Lacks sep cur → All (Lacks sep) (split_on sep cur s)
unfolding split_on
split-Lacks sep cur [] h = (h, tt)
split-Lacks sep cur (c ∷ s) h = elim (Bool-cases (c == sep)) [
  | inl e ↦ rw e (h, split-Lacks sep [] s refl)
  | inr e ↦ rw e (split-Lacks sep (cur ++ c ∷ []) s (Lacks-append sep cur (c ∷ []) h (rw e)))
]

-- The code with which helper ends for each end of the child.
abbrev pub EndsAs : Ended → ℕ → Type 0
EndsAs success n = n ≡ 0
EndsAs (exited k) n = n ≡ k
EndsAs not_started n = n ≡ 1

exit_code-EndsAs : (e : Ended) → EndsAs e (exit_code e)
exit_code-EndsAs success = refl
exit_code-EndsAs (exited k) = refl
exit_code-EndsAs not_started = refl

-- What the child runs with: a splitter for the host that allows just the pieces of the text between its
-- commas, and variables that point at it.
pub record Serves (flags : HelperFlags) (env : Env) (child environ : List Bytes)
    (run : List Action × ℕ) : Type 0 where
  pub address : Bytes
  pub splitter : Splitter
  pub pieces : List Bytes
  pub bound : env.bound ≡ some address
  pub pair : env.loads_pair ≡ true
  pub words : child ≡ flags.child
  pub variables :
      environ
      ≡ env.environ
        ++ ((codes "HTTPS_PROXY=http://" ++ address)
            ∷ (codes "HTTP_PROXY=http://" ++ address)
            ∷ (codes "ALL_PROXY=http://" ++ address)
            ∷ codes "NODE_USE_ENV_PROXY=1"
            ∷ [])
  pub code : EndsAs (env.ends child environ) run.1
  pub order : run.0 ≡ listen ∷ serve splitter ∷ exec child environ ∷ close ∷ []
  pub host : splitter.host ≡ flags.host
  pub joined : join b',' pieces ≡ flags.allow_csv
  pub single : All (Lacks b',') pieces
  pub allows : (h : Bytes) → (has splitter.allow h ≡ true) ↔ Elem h pieces

with_listener-Serves :
    (flags : HelperFlags) (env : Env) (o : Option Bytes) (child environ : List Bytes)
    → env.bound ≡ o
    → env.loads_pair ≡ true
    → Elem (exec child environ) (with_listener flags env o).0
    → Serves flags env child environ (with_listener flags env o)
unfolding with_listener new_splitter
with_listener-Serves flags env none child environ b p (inl e) = cc
with_listener-Serves flags env none child environ b p (inr e) = absurd e
with_listener-Serves flags env (some a) child environ b p (inl e) = cc
with_listener-Serves flags env (some a) child environ b p (inr (inl e)) = cc
with_listener-Serves flags env (some a) child environ b p (inr (inr (inr (inl e)))) = cc
with_listener-Serves flags env (some a) child environ b p (inr (inr (inr (inr e)))) = absurd e
with_listener-Serves flags env (some a) child environ b p (inr (inr (inl e))) =
    let w : child ≡ flags.child = cc in
    let v : environ ≡ env.environ ++ proxy_variables a = cc in
    record {
      address = a;
      splitter = new_splitter flags.host (split_on b',' [] flags.allow_csv);
      pieces = split_on b',' [] flags.allow_csv;
      bound = b;
      pair = p;
      words = w;
      variables = v;
      code = rw (w, v) (exit_code-EndsAs (env.ends flags.child (env.environ ++ proxy_variables a)));
      order = rw (w, v) refl;
      host = refl;
      joined = join-split b',' [] flags.allow_csv;
      single = split-Lacks b',' [] flags.allow_csv refl;
      allows = λ h. set_of_iff (split_on b',' [] flags.allow_csv) h;
    }

run_helper_cases :
    (flags : HelperFlags) (env : Env)
    → (run_helper (some flags) env ≡ ([], 2))
      ⊎ ((env.loads_pair ≡ true)
          × (run_helper (some flags) env ≡ with_listener flags env env.bound))
unfolding run_helper
run_helper_cases flags env = ground arith

-- Where helper starts a child, it is the command line's, the device's pair has loaded, the listener is
-- bound and a splitter for the given host serves on it before; the splitter's allowlist is exactly the
-- pieces without a comma that joined by commas are --allow; the child's environment is helper's own,
-- then HTTPS_PROXY, HTTP_PROXY and ALL_PROXY with the listener's http URL and NODE_USE_ENV_PROXY=1; and
-- helper ends with 0 where the child succeeds, the child's exit code where it has one, and 1 where it
-- does not start.
pub exec-Serves :
    (flags : HelperFlags) (env : Env) (child environ : List Bytes)
    → Elem (exec child environ) (run_helper (some flags) env).0
    → Serves flags env child environ (run_helper (some flags) env)
exec-Serves flags env child environ h = elim (run_helper_cases flags env) [
  | inl e ↦ absurd (subst (Elem (exec child environ)) (ap (λ (q : List Action × ℕ). q.0) e) h)
  | inr (p, e) ↦
      let same = ap (λ (q : List Action × ℕ). q.0) e in
      subst (Serves flags env child environ) (sym e) (
        with_listener-Serves flags env env.bound child environ refl p
          (subst (Elem (exec child environ)) same h))
]
