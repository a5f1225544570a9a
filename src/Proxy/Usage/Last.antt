-- ===== src/Proxy/Usage/Last.antt =====
-- Which of the documents of an event stream decides the model and the counts.
use cc_mysub.Base.{
  Bytes, is_empty, is_positive, Bool-cases, Option-cases, ℤ, pos, has_prefix, drop, length,
  trim_space, All, List, [], ◌∷◌, ◌++◌, Option, none, some, ◌≡◌, ◌⊎◌, inl, inr, refl, sym, ap, ◌∙◌,
  if◌then◌else◌,
}
use cc_mysub.Proxy.Usage.{
  Usage, no_usage, UsageWire, Decoder, merge_wire, merge_decoded, data_prefix, sniff_line,
  sniff_lines, split_lines, sniff_usage_sse,
}

abbrev or_else {ℓ} : {A : Type ℓ} → A → Option A → A
or_else a none = a
or_else a (some b) = b

module _ {A : Type 0} (value : Bytes → Option A) where
  -- The last line that has a value, or none has.
  abbrev pub Last : A → List Bytes → A → Type 0
  Last before ls after =
      (All (λ l. value l ≡ none) ls × (after ≡ before))
      ⊎ ((xs : List Bytes) × (l : Bytes) × (ys : List Bytes) × (ls ≡ xs ++ l ∷ ys)
          × (value l ≡ some after)
          × All (λ m. value m ≡ none) ys)

  abbrev fold : A → List Bytes → A
  fold a [] = a
  fold a (l ∷ ls) = fold (or_else a (value l)) ls

  Last-cons :
      (a z : A) (l : Bytes) (ls : List Bytes) → Last (or_else a (value l)) ls z → Last a (l ∷ ls) z
  Last-cons a z l ls (inr (xs, k, ys, e, v, h)) = inr (l ∷ xs, k, ys, ap (◌∷◌ l) e, v, h)
  Last-cons a z l ls (inl (h, e)) = elim (Option-cases (value l)) [
    | inl n ↦ inl ((n, h), rw n at e)
    | inr (b, s) ↦ inr ([], l, ls, refl, s ∙ ap (λ x. some x) (sym (rw s at e)), h)
  ]

  fold-Last : (a : A) (ls : List Bytes) → Last a ls (fold a ls)
  fold-Last a [] = inl (tt, refl)
  fold-Last a (l ∷ ls) = Last-cons a (fold a (l ∷ ls)) l ls (fold-Last (or_else a (value l)) ls)

-- The document of a line, if it is a data line and decodes.
abbrev pub document : Decoder → Bytes → Option UsageWire
document decode line =
    if has_prefix line data_prefix
    then decode (trim_space (drop (length data_prefix) line))
    else none

abbrev pub model_in : UsageWire → Option Bytes
model_in w = if is_empty w.message_model then none else some w.message_model

abbrev pub input_in : UsageWire → Option ℤ
input_in w =
    if is_positive w.usage.input
    then some w.usage.input
    else if is_positive w.message_usage.input
    then some w.message_usage.input
    else none

abbrev pub output_in : UsageWire → Option ℤ
output_in w = if is_positive w.usage.output then some w.usage.output else none

-- A member of the document of a line.
abbrev pub told : {A : Type 0} → Decoder → (UsageWire → Option A) → Bytes → Option A
told decode get line = elim (document decode line) [ none ↦ none | some w ↦ get w ]

merge-model : (u : Usage) (w : UsageWire) → (merge_wire u w).model ≡ or_else u.model (model_in w)
unfolding merge_wire
merge-model u w = elim (Bool-cases (is_empty w.message_model)) [
  | inl e ↦ rw e refl
  | inr e ↦ rw e refl
]

merge-output :
    (u : Usage) (w : UsageWire)
    → (merge_wire u w).output_tokens ≡ or_else u.output_tokens (output_in w)
unfolding merge_wire
merge-output u w = elim (Bool-cases (is_positive w.usage.output)) [
  | inl e ↦ rw e refl
  | inr e ↦ rw e refl
]

merge-input :
    (u : Usage) (w : UsageWire)
    → (merge_wire u w).input_tokens ≡ or_else u.input_tokens (input_in w)
unfolding merge_wire
merge-input u w = elim (Bool-cases (is_positive w.usage.input)) [
  | inl e ↦ rw e refl
  | inr e ↦ elim (Bool-cases (is_positive w.message_usage.input)) [
    | inl f ↦ rw (e, f) refl
    | inr f ↦ rw (e, f) refl
  ]
]

module _ {A : Type 0} (decode : Decoder) (field : Usage → A) (get : UsageWire → Option A)
    (merged : (u : Usage) (w : UsageWire)
      → field (merge_wire u w) ≡ or_else (field u) (get w)) where
  merge_decoded-told :
      (u : Usage) (o : Option UsageWire)
      → field (merge_decoded u o) ≡ or_else (field u) (elim o [ none ↦ none | some w ↦ get w ])
  unfolding merge_decoded
  merge_decoded-told u none = refl
  merge_decoded-told u (some w) = merged u w

  sniff_line-told :
      (u : Usage) (l : Bytes)
      → field (sniff_line decode u l) ≡ or_else (field u) (told decode get l)
  unfolding sniff_line
  sniff_line-told u l = elim (Bool-cases (has_prefix l data_prefix)) [
    | inl e ↦ rw e (merge_decoded-told u (decode (trim_space (drop (length data_prefix) l))))
    | inr e ↦ rw e refl
  ]

  sniff_lines-fold :
      (u : Usage) (ls : List Bytes)
      → field (sniff_lines decode u ls) ≡ fold (told decode get) (field u) ls
  unfolding sniff_lines
  sniff_lines-fold u [] = refl
  sniff_lines-fold u (l ∷ ls) =
      sniff_lines-fold (sniff_line decode u l) ls
      ∙ ap (λ a. fold (told decode get) a ls) (sniff_line-told u l)

  sniff_lines-Last :
      (u : Usage) (ls : List Bytes)
      → Last (told decode get) (field u) ls (field (sniff_lines decode u ls))
  sniff_lines-Last u ls = rw (sniff_lines-fold u ls) (fold-Last (told decode get) (field u) ls)

-- In an event stream the model and each count are those of the last line whose document gives one, that
-- is a name of the message that is not empty, or a count above 0 (the input tokens of the document
-- before those of its message); without such a line they are empty and 0.
pub sniff_usage_sse-Last :
    (decode : Decoder) (b : Bytes)
    → Last (told decode model_in) [] (split_lines b) (sniff_usage_sse decode b).model
      × Last (told decode input_in) (pos 0) (split_lines b) (sniff_usage_sse decode b).input_tokens
      × Last
          (told decode output_in)
          (pos 0)
          (split_lines b)
          (sniff_usage_sse decode b).output_tokens
unfolding sniff_usage_sse
sniff_usage_sse-Last decode b = (
  sniff_lines-Last decode (λ u. u.model) model_in merge-model no_usage (split_lines b),
  sniff_lines-Last decode (λ u. u.input_tokens) input_in merge-input no_usage (split_lines b),
  sniff_lines-Last decode (λ u. u.output_tokens) output_in merge-output no_usage (split_lines b),
)
