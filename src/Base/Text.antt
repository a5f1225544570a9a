-- ===== src/Base/Text.antt =====
-- unicode.IsSpace over UTF-8 bytes, strings.TrimSpace and strings.Fields.
use Prim.Native.Nat.{ℕ, zero, suc}
use mathlib.Core.Path.{◌≡◌}
use mathlib.Core.Bool.{Bool, true, not, ◌&&◌, ◌||◌}
use mathlib.Core.List.{List, [], ◌∷◌, ◌++◌}
use native.Mathlib.Omega.{arith}
use cc_mysub.Base.Tests.{◌==◌, leb, ltb, if◌then◌else◌}
use cc_mysub.Base.Strings.{Bytes}

-- The space characters of one byte: \t \n \v \f \r and the blank.
abbrev ascii_space : ℕ → Bool
ascii_space c = (leb 9 c && leb c 13) || c == 32

-- U+0085 and U+00A0.
abbrev space2 : ℕ → ℕ → Bool
space2 a b = a == 0xc2 && (b == 0x85 || b == 0xa0)

-- U+1680, U+2000 to U+200A, U+2028, U+2029, U+202F, U+205F and U+3000.
abbrev space3 : ℕ → ℕ → ℕ → Bool
space3 a b c =
    (a == 0xe1 && b == 0x9a && c == 0x80)
    || (a == 0xe2
        && b == 0x80
        && ((leb 0x80 c && leb c 0x8a) || c == 0xa8 || c == 0xa9 || c == 0xaf))
    || (a == 0xe2 && b == 0x81 && c == 0x9f)
    || (a == 0xe3 && b == 0x80 && c == 0x80)

-- The bytes of the space character that `s` begins with, 0 if it begins with none. The first byte
-- of each such sequence is a lead byte, which no other sequence contains, so wherever it stands a
-- character starts.
unfoldable pub space_width : Bytes → ℕ
space_width [] = 0
space_width (a ∷ []) = if ascii_space a then 1 else 0
space_width (a ∷ b ∷ []) = if ascii_space a then 1 else if space2 a b then 2 else 0
space_width (a ∷ b ∷ c ∷ s) =
    if ascii_space a then 1 else if space2 a b then 2 else if space3 a b c then 3 else 0

-- After a space of `w` bytes has been met at its first byte, `w - 1` bytes are left to skip.
abbrev pub rest_of : ℕ → ℕ
rest_of zero = 0
rest_of (suc w) = w

all_space_from : ℕ → Bytes → Bool
all_space_from skip [] = true
all_space_from (suc skip) (c ∷ s) = all_space_from skip s
all_space_from zero (c ∷ s) =
    let w = space_width (c ∷ s) in not (w == 0) && all_space_from (rest_of w) s

-- Nothing but spaces: strings.TrimSpace(s) == "".
unfoldable pub all_space : Bytes → Bool
unfolding all_space_from space_width
all_space s = all_space_from 0 s

trim_left : ℕ → Bytes → Bytes
unfolding space_width
trim_left skip [] = []
trim_left (suc skip) (c ∷ s) = trim_left skip s
trim_left zero (c ∷ s) =
    let w = space_width (c ∷ s) in
    let rest = trim_left (rest_of w) s in if w == 0 then c ∷ s else rest

trim_right : Bytes → Bytes
trim_right [] = []
trim_right (c ∷ s) = let rest = trim_right s in if all_space (c ∷ s) then [] else c ∷ rest

unfoldable pub trim_space : Bytes → Bytes
unfolding trim_left trim_right all_space
trim_space s = trim_right (trim_left 0 s)

-- A field that ends is put in front of the later ones, unless it is empty.
abbrev pub emit : Bytes → List Bytes → List Bytes
emit [] fs = fs
emit (c ∷ s) fs = (c ∷ s) ∷ fs

-- The loop of strings.Fields, with the field read so far and the bytes left of a space.
unfoldable pub fields_from : ℕ → Bytes → Bytes → List Bytes
unfolding space_width
fields_from skip cur [] = emit cur []
fields_from (suc skip) cur (c ∷ s) = fields_from skip cur s
fields_from zero cur (c ∷ s) =
    let w = space_width (c ∷ s) in
    let inside = fields_from 0 (cur ++ c ∷ []) s in
    let between = fields_from (rest_of w) [] s in if w == 0 then inside else emit cur between

unfoldable pub fields : Bytes → List Bytes
unfolding fields_from
fields s = fields_from 0 [] s

-- A printable ASCII character other than the blank.
abbrev pub is_plain : ℕ → Bool
is_plain c = ltb 32 c && ltb c 0x80

pub space_width-is_plain : (c : ℕ) (s : Bytes) → is_plain c ≡ true → space_width (c ∷ s) ≡ 0
unfolding space_width
space_width-is_plain c [] h = ground arith
space_width-is_plain c (d ∷ []) h = ground arith
space_width-is_plain c (d ∷ e ∷ s) h = ground arith
