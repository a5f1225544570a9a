-- ===== src/Collector/Entries.antt =====
-- The two loops of ci/egress/collector/sni.go on encoded names and extensions.
use cc_mysub.Base.{
  ℕ, zero, suc, ◌+◌, ◌*◌, ◌/◌, ◌%◌, ◌<◌, Bytes, false, not, ◌==◌, ==_iff, ltb, Bool-cases, length,
  length-append, take, drop, All, List, [], ◌∷◌, ◌++◌, append_assoc, some, ◌≡◌, ◌≢◌, inl, inr, refl,
  ap, ◌∙◌, arith, if◌then◌else◌,
}
use cc_mysub.Collector.{Found, absent, from, upto, step, names, extensions}
use cc_mysub.Collector.Wire.{
  be16, vec16, be16-value, drop_part, take_part, part_within, pass, from_pass, upto_pass,
}

-- An entry of a server_name_list.
abbrev pub entry : ℕ → Bytes → Bytes
entry t name = t ∷ vec16 name

module _ (next : Found) where
  -- A turn of the loop, once it has read the type and the length.
  turn : ℕ → ℕ → Bytes → ℕ → Found
  unfolding names from upto
  turn fuel t r nl =
      if ltb (length r) nl
      then absent
      else if t == 0
      then step (upto nl r) (λ h. some (some h))
      else step (from nl r) (λ more. names fuel more next)

  turn-value :
      (fuel t : ℕ) (x more : Bytes)
      → turn fuel t (x ++ more) (length x)
        ≡ (if t == 0 then some (some x) else names fuel more next)
  unfolding turn
  turn-value fuel t x more =
      let h = part_within x more in
      pass (length (x ++ more)) (length x) _ _ h
      ∙ ap (λ f. if t == 0 then f else step (from (length x) (x ++ more)) (λ y. names fuel y next))
          (upto_pass (length x) (x ++ more) _ h ∙ ap (λ y. some (some y)) (take_part x more))
      ∙ ap (λ f. if t == 0 then some (some x) else f)
          (from_pass (length x) (x ++ more) _ h ∙ ap (λ y. names fuel y next) (drop_part x more))

  names-entry :
      (fuel t : ℕ) (x more : Bytes)
      → names (suc fuel) (entry t x ++ more) next
        ≡ (if t == 0 then some (some x) else names fuel more next)
  unfolding names turn
  names-entry fuel t x more =
      let p = entry t x ++ more in
      pass (length p) 3 _ _ (omega arith)
      ∙ from_pass 3 p (λ r. turn fuel t r (length x / 256 * 256 + length x % 256)) (omega arith)
      ∙ ap (turn fuel t (x ++ more)) (be16-value (length x))
      ∙ turn-value fuel t x more

-- Entries of other types than a host name, and extensions of other types than server_name.
abbrev pub Other : ℕ × Bytes → Type 0
Other (t, x) = t ≢ 0

abbrev pub entries : List (ℕ × Bytes) → Bytes
entries [] = []
entries ((t, x) ∷ more) = entry t x ++ entries more

abbrev pub extension : ℕ → Bytes → Bytes
extension t x = be16 t ++ vec16 x

abbrev pub all_extensions : List (ℕ × Bytes) → Bytes
all_extensions [] = []
all_extensions ((t, x) ∷ more) = extension t x ++ all_extensions more

other_test : (t : ℕ) → t ≢ 0 → (t == 0) ≡ false
other_test t h = elim (Bool-cases (t == 0)) [ inl e ↦ absurd (h ((==_iff t 0).0 e)) | inr e ↦ e ]

names_host :
    (others : List (ℕ × Bytes)) (fuel : ℕ) (host more : Bytes) (next : Found)
    → All Other others
    → length (entries others) < fuel
    → names fuel (entries others ++ (entry 0 host ++ more)) next ≡ some (some host)
names_host others zero host more next h l = absurd (omega arith)
names_host [] (suc fuel) host more next h l = names-entry next fuel 0 host more
names_host ((t, x) ∷ others) (suc fuel) host more next (h, g) l =
    ap (λ y. names (suc fuel) y next)
      (append_assoc (entry t x) (entries others) (entry 0 host ++ more))
    ∙ names-entry next fuel t x (entries others ++ (entry 0 host ++ more))
    ∙ rw (other_test t h)
        (names_host others fuel host more next g (omega (arith, length-append x (entries others))))

-- A turn of the loop over the extensions, once it has read the type and the length.
extended : ℕ → Bytes → ℕ → ℕ → Found
unfolding names extensions upto from
extended fuel q etype elen =
    if ltb (length q) elen
    then absent
    else step (upto elen q) (λ ext. step (from elen q) (λ more.
      if not (etype == 0)
      then extensions fuel more
      else if ltb (length ext) 2
      then absent
      else step (from 2 ext) (λ sn. names (suc (length sn)) sn (extensions fuel more))))

found_in : ℕ → ℕ → Bytes → Bytes → Found
unfolding names extensions from
found_in fuel etype ext more =
    if not (etype == 0)
    then extensions fuel more
    else if ltb (length ext) 2
    then absent
    else step (from 2 ext) (λ sn. names (suc (length sn)) sn (extensions fuel more))

extended-value :
    (fuel t : ℕ) (x more : Bytes) → extended fuel (x ++ more) t (length x) ≡ found_in fuel t x more
unfolding extended found_in
extended-value fuel t x more =
    let h = part_within x more in
    pass (length (x ++ more)) (length x) _ _ h
    ∙ upto_pass (length x) (x ++ more)
        (λ ext. step (from (length x) (x ++ more)) (found_in fuel t ext)) h
    ∙ from_pass (length x) (x ++ more) (found_in fuel t (take (length x) (x ++ more))) h
    ∙ ap (λ y. found_in fuel t y (drop (length x) (x ++ more))) (take_part x more)
    ∙ ap (found_in fuel t x) (drop_part x more)

extensions-extension :
    (fuel t : ℕ) (x more : Bytes)
    → extensions (suc fuel) (extension t x ++ more) ≡ found_in fuel t x more
unfolding extensions extended
extensions-extension fuel t x more =
    let p = extension t x ++ more in
    pass (length p) 4 _ _ (omega arith)
    ∙ from_pass 4 p
        (λ q. extended fuel q (t / 256 * 256 + t % 256) (length x / 256 * 256 + length x % 256))
        (omega arith)
    ∙ ap (λ n. extended fuel (x ++ more) n (length x / 256 * 256 + length x % 256)) (be16-value t)
    ∙ ap (extended fuel (x ++ more) t) (be16-value (length x))
    ∙ extended-value fuel t x more

found_in_other :
    (fuel t : ℕ) (x more : Bytes) → t ≢ 0 → found_in fuel t x more ≡ extensions fuel more
unfolding found_in
found_in_other fuel t x more h = rw (other_test t h) refl

found_in-vec16 :
    (fuel : ℕ) (l more : Bytes)
    → found_in fuel 0 (vec16 l) more ≡ names (suc (length l)) l (extensions fuel more)
unfolding found_in
found_in-vec16 fuel l more =
    pass (length (vec16 l)) 2 _ _ (omega arith) ∙ from_pass 2 (vec16 l) _ (omega arith)

-- The server_name_list that names the host, behind entries of other types.
abbrev pub name_list : List (ℕ × Bytes) → Bytes → Bytes → Bytes
name_list others host rest = entries others ++ (entry 0 host ++ rest)

pub extensions_host :
    (before others : List (ℕ × Bytes)) (fuel : ℕ) (host rest after : Bytes)
    → All Other before
    → All Other others
    → length (all_extensions before) < fuel
    → extensions fuel
        (all_extensions before ++ (extension 0 (vec16 (name_list others host rest)) ++ after))
      ≡ some (some host)
extensions_host before others zero host rest after h g l = absurd (omega arith)
extensions_host [] others (suc fuel) host rest after h g l =
    let names = name_list others host rest in
    extensions-extension fuel 0 (vec16 names) after
    ∙ found_in-vec16 fuel names after
    ∙ names_host others (suc (length names)) host rest (extensions fuel after) g
        (omega (arith, length-append (entries others) (entry 0 host ++ rest)))
extensions_host ((t, x) ∷ before) others (suc fuel) host rest after (h, k) g l =
    let sni = extension 0 (vec16 (name_list others host rest)) ++ after in
    ap (extensions (suc fuel)) (append_assoc (extension t x) (all_extensions before) sni)
    ∙ extensions-extension fuel t x (all_extensions before ++ sni)
    ∙ found_in_other fuel t x (all_extensions before ++ sni) h
    ∙ extensions_host before others fuel host rest after k g
        (omega (arith, length-append x (all_extensions before)))
