-- ===== src/Collector/Wire.antt =====
-- The numbers and vectors of a ClientHello, as ci/egress/collector/sni.go reads them.
use cc_mysub.Base.{
  ℕ, suc, ◌+◌, ◌*◌, ◌/◌, ◌%◌, ◌≤◌, Bytes, ltb, ltb_of_le, le→leb, length, length-append, take, drop,
  [], ◌∷◌, ◌++◌, ◌≡◌, refl, ap, ◌∙◌, arith, if◌then◌else◌,
}
use cc_mysub.Collector.{Found, absent, from, upto, step, skip8, skip16}

-- Numbers of two bytes, and vectors behind a length of one byte or two.
abbrev pub be16 : ℕ → Bytes
be16 n = n / 256 ∷ n % 256 ∷ []

abbrev pub vec8 : Bytes → Bytes
vec8 xs = length xs ∷ xs

abbrev pub vec16 : Bytes → Bytes
vec16 xs = be16 (length xs) ++ xs

pub be16-value : (n : ℕ) → n / 256 * 256 + n % 256 ≡ n
be16-value n = omega arith

-- A part with its length behind it.
pub drop_part : (xs ys : Bytes) → drop (length xs) (xs ++ ys) ≡ ys
drop_part [] ys = refl
drop_part (x ∷ xs) ys = drop_part xs ys

pub take_part : (xs ys : Bytes) → take (length xs) (xs ++ ys) ≡ xs
take_part [] ys = refl
take_part (x ∷ xs) ys = ap (λ zs. x ∷ zs) (take_part xs ys)

pub part_within : (xs ys : Bytes) → length xs ≤ length (xs ++ ys)
part_within xs ys = omega (arith, length-append xs ys)

pub pass : (a b : ℕ) (f g : Found) → b ≤ a → (if ltb a b then f else g) ≡ g
pass a b f g h = rw (ltb_of_le a b h) refl

pub from_pass :
    (n : ℕ) (p : Bytes) (k : Bytes → Found) → n ≤ length p → step (from n p) k ≡ k (drop n p)
unfolding from
from_pass n p k h = rw (le→leb n (length p) h) refl

pub upto_pass :
    (n : ℕ) (p : Bytes) (k : Bytes → Found) → n ≤ length p → step (upto n p) k ≡ k (take n p)
unfolding upto
upto_pass n p k h = rw (le→leb n (length p) h) refl

drop1 : (n a : ℕ) (xs : Bytes) → drop (1 + n) (a ∷ xs) ≡ drop n xs
drop1 n a xs = let e : 1 + n ≡ suc n = omega arith in ap (λ m. drop m (a ∷ xs)) e

drop2 : (n a b : ℕ) (xs : Bytes) → drop (2 + n) (a ∷ b ∷ xs) ≡ drop n xs
drop2 n a b xs = let e : 2 + n ≡ suc (suc n) = omega arith in ap (λ m. drop m (a ∷ b ∷ xs)) e

pub skip8-vec8 : (xs ys : Bytes) (k : Bytes → Found) → skip8 (vec8 xs ++ ys) k ≡ k ys
unfolding skip8
skip8-vec8 xs ys k =
    let p = vec8 xs ++ ys in
    let h = part_within xs ys in
    pass (length p) 1 _ _ (omega arith)
    ∙ pass (length p) (1 + length xs) _ _ (omega (arith, h))
    ∙ from_pass (1 + length xs) p k (omega (arith, h))
    ∙ ap k (drop1 (length xs) _ (xs ++ ys) ∙ drop_part xs ys)

pub skip16-vec16 : (xs ys : Bytes) (k : Bytes → Found) → skip16 (vec16 xs ++ ys) k ≡ k ys
unfolding skip16
skip16-vec16 xs ys k =
    let p = vec16 xs ++ ys in
    let h = part_within xs ys in
    pass (length p) 2 _ _ (omega arith)
    ∙ ap (λ n. if ltb (length p) (2 + n) then absent else step (from (2 + n) p) k)
        (be16-value (length xs))
    ∙ pass (length p) (2 + length xs) _ _ (omega (arith, h))
    ∙ from_pass (2 + length xs) p k (omega (arith, h))
    ∙ ap k (drop2 (length xs) _ _ (xs ++ ys) ∙ drop_part xs ys)
