-- ===== src/Http.antt =====
-- net/http's Header and Request, as far as the program reads and writes them: internal/auth/token.go,
-- internal/proxy/forward.go and internal/proxy/baseline.go call Get, Set and Del with literal names.
use cc_mysub.Base.{
  Bytes, codes, equal, Dict, lookup, insert, delete, lookup-insert, lookup-delete, Option, none,
  some, List, [], ◌∷◌, ◌≡◌, if◌then◌else◌, arith,
}

-- Values by canonical name. The server hands the handlers canonical names.
abbrev pub Header : Type 0
Header = Dict (List Bytes)

abbrev pub authorization : Bytes
authorization = codes "Authorization"

abbrev pub x_api_key : Bytes
x_api_key = codes "X-Api-Key"

abbrev pub first_value : Option (List Bytes) → Bytes
first_value none = []
first_value (some []) = []
first_value (some (v ∷ vs)) = v

-- h.Get(name): the first value, "" if there is none.
unfoldable pub get : Header → Bytes → Bytes
unfolding lookup
get h name = first_value (lookup name h)

-- h.Set(name, value)
unfoldable pub set : Header → Bytes → Bytes → Header
unfolding insert
set h name value = insert name (value ∷ []) h

-- h.Del(name)
unfoldable pub del : Header → Bytes → Header
unfolding delete
del h name = delete name h

pub get-set :
    (h : Header) (name value other : Bytes)
    → get (set h name value) other ≡ (if equal name other then value else get h other)
get-set h name value other =
    unfold get set in ground (arith, lookup-insert name other (value ∷ []) h)

pub get-del :
    (h : Header) (name other : Bytes)
    → get (del h name) other ≡ (if equal name other then [] else get h other)
get-del h name other = unfold get del in ground (arith, lookup-delete name other h)
