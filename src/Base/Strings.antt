-- ===== src/Base/Strings.antt =====
-- Go strings and byte slices: lists of byte values.
use Prim.Native.Nat.{ℕ}
use Prim.Native.Char.{code}
use Prim.Native.String.{String}
use mathlib.Core.Path.{◌≡◌, refl, ◌∙◌}
use mathlib.Core.Logic.{◌≢◌, ◌↔◌}
use mathlib.Core.Bool.{Bool, true, false, not, ◌&&◌, ◌||◌}
use mathlib.Core.List.{List, [], ◌∷◌, ◌++◌}
use native.Mathlib.Omega.{arith}
use cc_mysub.Base.Tests.{◌==◌}

abbrev pub Bytes : Type 0
Bytes = List ℕ

-- The bytes of an ASCII literal.
abbrev pub codes : String → Bytes
codes String.[] = []
codes (String.◌∷◌ c s) = code c ∷ codes s

-- `a == b` on strings.
unfoldable pub equal : Bytes → Bytes → Bool
equal [] [] = true
equal (x ∷ a) (y ∷ b) = x == y && equal a b
equal _ _ = false

pub equal_iff : (s t : Bytes) → (equal s t ≡ true) ↔ (s ≡ t)
unfolding equal
equal_iff (c ∷ s) (d ∷ t) = ground (arith, equal_iff s t)
equal_iff _ _ = ground arith

pub equal_refl : (a : Bytes) → equal a a ≡ true
equal_refl a = (equal_iff a a).1 refl

pub equal-false : (a b : Bytes) → a ≢ b → equal a b ≡ false
equal-false a b h = ground (arith, equal_iff a b)

-- `s == ""`.
unfoldable pub is_empty : Bytes → Bool
is_empty [] = true
is_empty (c ∷ s) = false

pub nonempty : (s : Bytes) → is_empty s ≡ false → s ≢ []
unfolding is_empty
nonempty s h = ground arith

pub is_empty-false : (s : Bytes) → s ≢ [] → is_empty s ≡ false
unfolding is_empty
is_empty-false [] h = absurd (h refl)
is_empty-false (c ∷ s) h = refl

pub is_empty-true : (s : Bytes) → is_empty s ≡ true → s ≡ []
unfolding is_empty
is_empty-true s h = ground arith

-- strings.HasPrefix(s, p).
unfoldable pub has_prefix : Bytes → Bytes → Bool
has_prefix s [] = true
has_prefix [] (y ∷ p) = false
has_prefix (x ∷ s) (y ∷ p) = x == y && has_prefix s p

pub has_prefix-append : (p s : Bytes) → has_prefix (p ++ s) p ≡ true
unfolding has_prefix
has_prefix-append [] s = refl
has_prefix-append (y ∷ p) s = ground (arith, has_prefix-append p s)

-- strings.Contains(s, sub), for the literals (not empty) that the program looks for.
unfoldable pub contains : Bytes → Bytes → Bool
unfolding has_prefix
contains [] sub = has_prefix [] sub
contains (c ∷ s) sub = has_prefix (c ∷ s) sub || contains s sub

abbrev pub all_bytes : (ℕ → Bool) → Bytes → Bool
all_bytes p [] = true
all_bytes p (c ∷ s) = p c && all_bytes p s

abbrev pub AllBytes : (ℕ → Bool) → Bytes → Type 0
AllBytes p [] = Unit
AllBytes p (c ∷ s) = (p c ≡ true) × AllBytes p s

pub all_bytes_iff : (p : ℕ → Bool) (s : Bytes) → (all_bytes p s ≡ true) ↔ AllBytes p s
all_bytes_iff p [] = (λ _. tt, λ _. refl)
all_bytes_iff p (c ∷ s) = ground (arith, all_bytes_iff p s)

pub all_bytes-append :
    (p : ℕ → Bool) (s t : Bytes) → all_bytes p (s ++ t) ≡ (all_bytes p s && all_bytes p t)
all_bytes-append p [] t = refl
all_bytes-append p (c ∷ s) t = ground (arith, all_bytes-append p s t)

-- Text without a byte.
abbrev pub no_byte : ℕ → ℕ → Bool
no_byte b c = not (c == b)

abbrev pub Lacks : ℕ → Bytes → Type 0
Lacks b s = all_bytes (no_byte b) s ≡ true

pub Lacks-append : (b : ℕ) (s t : Bytes) → Lacks b s → Lacks b t → Lacks b (s ++ t)
Lacks-append b s t h k = all_bytes-append (no_byte b) s t ∙ rw (h, k)
