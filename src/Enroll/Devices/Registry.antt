-- ===== src/Enroll/Devices/Registry.antt =====
-- The list of devices as a table of labels, and what AppendDevice and ReplaceDevice do to it.
use mathlib.Core.Path.{fun_ext}
use cc_mysub.Base.{
  Bytes, equal, equal_iff, equal_refl, is_empty, trim_space, true, false, Bool, Bool-cases, Result,
  ok, err, List, [], ◌∷◌, ◌++◌, Option, none, some, ◌≡◌, inl, inr, refl, sym, ap, ◌∙◌, arith,
  if◌then◌else◌,
}
use cc_mysub.Auth.Store.{Device}
use cc_mysub.Enroll.{
  Params, Error, File, absent, content, read_devices, duplicate_label, label_not_found,
}
use cc_mysub.Enroll.Devices.{
  Codec, new_device, has_label, drop_label, parsed, encoded, present_rows, append_row,
  append_device, old_rows, replace_row, replace_device,
}

-- The abstract table; `none` where there is no list yet.
abbrev pub Registry : Type 0
Registry = Bytes → Option Device

abbrev pub record_device : Registry → Device → Registry
record_device f d label = if equal d.label label then some d else f label

abbrev pub is_some : Option Device → Bool
is_some none = false
is_some (some d) = true

-- What a command for this device does to the table, and its answer: an addition wants a new label, a
-- rotation a known one.
abbrev pub enter : Bool → Params → Bytes → Option Registry → Option Registry × Result Error Bytes
enter true p fp none = (none, err read_devices)
enter false p fp none = (some (record_device (λ label. none) (new_device p fp)), ok fp)
enter true p fp (some f) =
    if is_some (f p.label)
    then (some (record_device f (new_device p fp)), ok fp)
    else (some f, err label_not_found)
enter false p fp (some f) =
    if is_some (f p.label)
    then (some f, err duplicate_label)
    else (some (record_device f (new_device p fp)), ok fp)

abbrev pub labels : List Device → Registry
labels [] label = none
labels (d ∷ ds) label = if equal d.label label then some d else labels ds label

labels-has :
    (label : Bytes) (rows : List Device) → has_label label rows ≡ is_some (labels rows label)
unfolding has_label
labels-has label [] = refl
labels-has label (d ∷ ds) = elim (Bool-cases (equal d.label label)) [
  | inl e ↦ rw e
  | inr e ↦ rw e (labels-has label ds)
]

labels-append :
    (d : Device) (rows : List Device) (label : Bytes)
    → has_label d.label rows ≡ false
    → labels (rows ++ d ∷ []) label ≡ (if equal d.label label then some d else labels rows label)
unfolding has_label
labels-append d [] label h = refl
labels-append d (x ∷ rows) label h = ground (
  arith,
  labels-append d rows label,
  equal_iff x.label label,
  equal_iff d.label label,
  equal_iff x.label d.label,
)

labels-drop :
    (k : Bytes) (rows : List Device) (label : Bytes)
    → labels (drop_label k rows) label ≡ (if equal k label then none else labels rows label)
unfolding drop_label
labels-drop k [] label = ground arith
labels-drop k (x ∷ rows) label = ground (
  arith,
  labels-drop k rows label,
  equal_iff x.label label,
  equal_iff k label,
  equal_iff x.label k,
)

dropped : (k : Bytes) (rows : List Device) → has_label k (drop_label k rows) ≡ false
dropped k rows = labels-has k (drop_label k rows) ∙ rw (labels-drop k rows k, equal_refl k)

ite_none :
    (c : Bool) (d : Option Device) (o : Option Device)
    → (if c then d else (if c then none else o)) ≡ (if c then d else o)
ite_none true d o = refl
ite_none false d o = refl

labels-replace :
    (d : Device) (rows : List Device) (label : Bytes)
    → labels (drop_label d.label rows ++ d ∷ []) label
      ≡ (if equal d.label label then some d else labels rows label)
labels-replace d rows label =
    labels-append d (drop_label d.label rows) label (dropped d.label rows)
    ∙ rw (labels-drop d.label rows label)
        (ite_none (equal d.label label) (some d) (labels rows label))

-- The file after the command, if it is written whole, and the command's answer.
abbrev pub kept : File → Result Error Bytes → File
kept file (err e) = file
kept file (ok b) = content b

abbrev pub answered : Bytes → Result Error Bytes → Result Error Bytes
answered fp (err e) = err e
answered fp (ok b) = ok fp

abbrev pub change : Codec → Bool → File → Params → Bytes → Result Error Bytes
change codec true file p fp = replace_device codec file p fp
change codec false file p fp = append_device codec file p fp

-- The file holds a list of these labels; without a file there is no table.
abbrev pub Shows : Codec → File → Option Registry → Type 0
Shows codec file none = file ≡ absent
Shows codec file (some f) =
    (b : Bytes) × (rows : List Device) × (file ≡ content b)
    × (is_empty (trim_space b) ≡ false)
    × (codec.decode b ≡ some rows)
    × (f ≡ labels rows)

-- json.MarshalIndent does not fail on such a list, nor is its output blank.
abbrev pub Total : Codec → Type 0
Total codec =
    (rows : List Device)
    → (b : Bytes) × (codec.encode rows ≡ some b) × (is_empty (trim_space (b ++ 10 ∷ [])) ≡ false)

abbrev pub Refines :
    Codec → File → Bytes → Result Error Bytes → Option Registry × Result Error Bytes → Type 0
Refines codec file fp r (reg, answer) = Shows codec (kept file r) reg × (answered fp r ≡ answer)

known :
    (p : Params) (rows : List Device) (f : Registry)
    → f ≡ labels rows
    → is_some (f p.label) ≡ has_label p.label rows
known p rows f e = ap (λ (g : Registry). is_some (g p.label)) e ∙ sym (labels-has p.label rows)

appended :
    (d : Device) (rows : List Device) (f : Registry)
    → f ≡ labels rows
    → has_label d.label rows ≡ false
    → record_device f d ≡ labels (rows ++ d ∷ [])
appended d rows f e h =
    ap (λ (g : Registry). record_device g d) e
    ∙ fun_ext (λ label. sym (labels-append d rows label h))

replaced :
    (d : Device) (rows : List Device) (f : Registry)
    → f ≡ labels rows
    → record_device f d ≡ labels (drop_label d.label rows ++ d ∷ [])
replaced d rows f e =
    ap (λ (g : Registry). record_device g d) e
    ∙ fun_ext (λ label. sym (labels-replace d rows label))

module _ (codec : Codec) (total : Total codec) where
  encoded-Refines :
      (rows : List Device) (f : Registry) (file : File) (fp : Bytes)
      → f ≡ labels rows
      → Refines codec file fp (encoded (codec.encode rows)) (some f, ok fp)
  unfolding encoded
  encoded-Refines rows f file fp e =
      let (b, h, n) = total rows in
      rw h ((b ++ 10 ∷ [], rows, refl, n, codec.decode-encode rows b h, e), refl)

  append_row-Refines :
      (b : Bytes) (rows : List Device) (f : Registry) (p : Params) (fp : Bytes)
      → is_empty (trim_space b) ≡ false
      → codec.decode b ≡ some rows
      → f ≡ labels rows
      → Refines codec (content b) fp (append_row codec p fp rows) (enter false p fp (some f))
  unfolding append_row
  append_row-Refines b rows f p fp n d e =
      let k = known p rows f e in
      elim (Bool-cases (has_label p.label rows)) [
        | inl h ↦ rw (h, k ∙ h) ((b, rows, refl, n, d, e), refl)
        | inr h ↦
            rw (h, k ∙ h)
              (encoded-Refines (rows ++ new_device p fp ∷ []) (record_device f (new_device p fp))
                (content b) fp (appended (new_device p fp) rows f e h))
      ]

  replace_row-Refines :
      (b : Bytes) (rows : List Device) (f : Registry) (p : Params) (fp : Bytes)
      → is_empty (trim_space b) ≡ false
      → codec.decode b ≡ some rows
      → f ≡ labels rows
      → Refines codec (content b) fp (replace_row codec p fp rows) (enter true p fp (some f))
  unfolding replace_row
  replace_row-Refines b rows f p fp n d e =
      let k = known p rows f e in
      elim (Bool-cases (has_label p.label rows)) [
        | inl h ↦
            rw (h, k ∙ h)
              (encoded-Refines (drop_label p.label rows ++ new_device p fp ∷ [])
                (record_device f (new_device p fp)) (content b) fp
                (replaced (new_device p fp) rows f e))
        | inr h ↦ rw (h, k ∙ h) ((b, rows, refl, n, d, e), refl)
      ]

  pub change-Refines :
      (rotate : Bool) (file : File) (reg : Option Registry) (p : Params) (fp : Bytes)
      → Shows codec file reg
      → Refines codec file fp (change codec rotate file p fp) (enter rotate p fp reg)
  unfolding append_device replace_device present_rows old_rows parsed append_row has_label
  change-Refines true file none p fp h = rw h (refl, refl)
  change-Refines false file none p fp h = rw h (
      encoded-Refines (new_device p fp ∷ []) (record_device (λ label. none) (new_device p fp))
        absent fp refl)
  change-Refines true file (some f) p fp (b, rows, s, n, d, e) =
      rw (s, d) (replace_row-Refines b rows f p fp n d e)
  change-Refines false file (some f) p fp (b, rows, s, n, d, e) =
      rw (s, n, d) (append_row-Refines b rows f p fp n d e)
