-- ===== src/Collector/Slices.antt =====
-- Indices and slices of ci/egress/collector/sni.go that stay within what they are taken of.
use cc_mysub.Base.{
  ℕ, zero, suc, ◌+◌, ◌*◌, ◌≤◌, ◌<◌, Bytes, Bool, true, false, ltb, le→leb, le_of_ltb, Bool-cases,
  length, take, drop, take-append-drop, [], ◌∷◌, ◌++◌, append_assoc, some, ◌≡◌, ◌⊎◌, inl, inr, refl,
  sym, ap, ◌∙◌, arith, if◌then◌else◌,
}
use cc_mysub.Collector.{Found, absent, at, from, upto, step, word, skip8, skip16}

halves : (n : ℕ) (p e : Bytes) → take n p ++ (drop n p ++ e) ≡ p ++ e
halves n p e = sym (append_assoc (take n p) (drop n p) e) ∙ ap (λ x. x ++ e) (take-append-drop n p)

pub length-take : (n : ℕ) (p : Bytes) → n ≤ length p → length (take n p) ≡ n
length-take zero p h = refl
length-take (suc n) [] h = omega arith
length-take (suc n) (c ∷ p) h = ap suc (length-take n p (omega arith))

module _ (input : Bytes) where
  -- A part of the input.
  abbrev pub Within : Bytes → Type 0
  Within p = (before : Bytes) × (behind : Bytes) × (before ++ (p ++ behind) ≡ input)

  -- No host, or one that is a part of the input: not a panic.
  abbrev pub Safe : Found → Type 0
  Safe f = (f ≡ absent) ⊎ ((h : Bytes) × (f ≡ some (some h)) × Within h)

  pub absent-Safe : Safe absent
  absent-Safe = inl refl

  pub drop-Within : (n : ℕ) (p : Bytes) → Within p → Within (drop n p)
  drop-Within n p (b, e, w) = (
    b ++ take n p,
    e,
    append_assoc b (take n p) (drop n p ++ e) ∙ ap (λ x. b ++ x) (halves n p e) ∙ w,
  )

  pub take-Within : (n : ℕ) (p : Bytes) → Within p → Within (take n p)
  take-Within n p (b, e, w) = (b, drop n p ++ e, ap (λ x. b ++ x) (halves n p e) ∙ w)

  pub at-Safe :
      (i : ℕ) (p : Bytes) (k : ℕ → Found)
      → i < length p
      → ((n : ℕ) → Safe (k n))
      → Safe (step (at i p) k)
  at-Safe i [] k h f = absurd (omega arith)
  at-Safe zero (c ∷ p) k h f = f c
  at-Safe (suc i) (c ∷ p) k h f = at-Safe i p k (omega arith) f

  pub word-Safe :
      (i : ℕ) (p : Bytes) (k : ℕ → Found)
      → i + 1 < length p
      → ((n : ℕ) → Safe (k n))
      → Safe (word i p k)
  word-Safe i p k h f =
      at-Safe i p _ (omega arith) (λ hi. at-Safe (i + 1) p _ h (λ lo. f (hi * 256 + lo)))

  pub from-Safe :
      (n : ℕ) (p : Bytes) (k : Bytes → Found)
      → n ≤ length p
      → Safe (k (drop n p))
      → Safe (step (from n p) k)
  unfolding from
  from-Safe n p k h f = rw (le→leb n (length p) h) f

  pub upto-Safe :
      (n : ℕ) (p : Bytes) (k : Bytes → Found)
      → n ≤ length p
      → Safe (k (take n p))
      → Safe (step (upto n p) k)
  unfolding upto
  upto-Safe n p k h f = rw (le→leb n (length p) h) f

  pub guard-Safe : (a b : ℕ) (f : Found) → (b ≤ a → Safe f) → Safe (if ltb a b then absent else f)
  guard-Safe a b f k = elim (Bool-cases (ltb a b)) [
    | inl e ↦ rw e (inl refl)
    | inr e ↦ rw e (k (le_of_ltb a b e))
  ]

  pub if-Safe : (c : Bool) (f g : Found) → Safe f → Safe g → Safe (if c then f else g)
  if-Safe true f g x y = x
  if-Safe false f g x y = y

  pub skip8-Safe :
      (p : Bytes) (k : Bytes → Found)
      → Within p
      → ((q : Bytes) → Within q → Safe (k q))
      → Safe (skip8 p k)
  unfolding skip8
  skip8-Safe p k w f = guard-Safe (length p) 1 _ (λ h. at-Safe 0 p _ (omega arith) (λ n.
      guard-Safe (length p) (1 + n) _
        (λ g. from-Safe (1 + n) p k g (f (drop (1 + n) p) (drop-Within (1 + n) p w)))))

  pub skip16-Safe :
      (p : Bytes) (k : Bytes → Found)
      → Within p
      → ((q : Bytes) → Within q → Safe (k q))
      → Safe (skip16 p k)
  unfolding skip16
  skip16-Safe p k w f = guard-Safe (length p) 2 _ (λ h. word-Safe 0 p _ (omega arith) (λ n.
      guard-Safe (length p) (2 + n) _
        (λ g. from-Safe (2 + n) p k g (f (drop (2 + n) p) (drop-Within (2 + n) p w)))))
