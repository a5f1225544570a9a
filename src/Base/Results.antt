-- ===== src/Base/Results.antt =====
-- Fallible code: a value or the error that the Go function returns.
use mathlib.Core.Path.{◌≡◌, refl}
use mathlib.Core.Logic.{◌⊎◌, inl, inr}
use mathlib.Core.Option.{Option, none, some}

pub data Result (E A : Type 0) : Type 0 where
  ok : A → Result E A
  err : E → Result E A

infixl 5 ◌>>=◌
abbrev pub ◌>>=◌ : {E A B : Type 0} → Result E A → (A → Result E B) → Result E B
ok a >>= f = f a
err e >>= f = err e

pub Result-cases : {E : Type 0} (r : Result E (Unit {0})) → (r ≡ ok tt) ⊎ ((e : E) × (r ≡ err e))
Result-cases (ok tt) = inl refl
Result-cases (err e) = inr (e, refl)

-- A chain that gives a value got one from its first part.
pub >>=-eq-ok :
    {E A B : Type 0} {v : B} (first : Result E A) (then' : A → Result E B)
    → (first >>= then') ≡ ok v
    → (a : A) × (first ≡ ok a) × (then' a ≡ ok v)
>>=-eq-ok (err e) then' eq = cc
>>=-eq-ok (ok a) then' eq = (a, refl, eq)

-- An error for a value that is missing, and an error wrapped in another.
abbrev pub of_option : {E A : Type 0} → E → Option A → Result E A
of_option e none = err e
of_option e (some a) = ok a

abbrev pub map_err : {E F A : Type 0} → (E → F) → Result E A → Result F A
map_err f (ok a) = ok a
map_err f (err e) = err (f e)

pub of_option-ok : {E A : Type 0} (e : E) (o : Option A) (a : A) → of_option e o ≡ ok a → o ≡ some a
of_option-ok e none a h = cc
of_option-ok e (some b) a h = cc

pub map_err-ok :
    {E F A : Type 0} (f : E → F) (r : Result E A) (a : A) → map_err f r ≡ ok a → r ≡ ok a
map_err-ok f (ok b) a h = cc
map_err-ok f (err e) a h = cc
