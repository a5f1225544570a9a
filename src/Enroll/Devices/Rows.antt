-- ===== src/Enroll/Devices/Rows.antt =====
-- The rows that a changed devices.json has.
use cc_mysub.Base.{
  Bytes, false, equal, equal_iff, equal_refl, Bool-cases, ok, >>=-eq-ok, All, List, [], ◌∷◌, ◌++◌,
  Option, none, some, ◌≡◌, ◌≢◌, ◌⊎◌, inl, inr, refl, ap, ◌∙◌, arith, if◌then◌else◌,
}
use cc_mysub.Auth.Store.{Device}
use cc_mysub.Auth.Store.Table.{last_row}
use cc_mysub.Enroll.{Params, File}
use cc_mysub.Enroll.Devices.{
  Codec, new_device, has_label, drop_label, encoded, present_rows, append_row, append_device,
  old_rows, replace_row, replace_device,
}

module _ (codec : Codec) where
  encoded-ok :
      (rows : List Device) (o : Option Bytes) (b : Bytes)
      → codec.encode rows ≡ o
      → encoded o ≡ ok b
      → codec.decode b ≡ some rows
  unfolding encoded
  encoded-ok rows none b e h = cc
  encoded-ok rows (some c) b e h =
      let same : b ≡ c ++ 10 ∷ [] = cc in ap codec.decode same ∙ codec.decode-encode rows c e

  append_row-ok :
      (p : Params) (fp b : Bytes) (rows : List Device)
      → append_row codec p fp rows ≡ ok b
      → (has_label p.label rows ≡ false) × (codec.decode b ≡ some (rows ++ new_device p fp ∷ []))
  unfolding append_row
  append_row-ok p fp b rows h = elim (Bool-cases (has_label p.label rows)) [
    | inl e ↦ cc (rw e at h)
    | inr e ↦ (e, encoded-ok (rows ++ new_device p fp ∷ []) _ b refl (rw e at h))
  ]

  replace_row-ok :
      (p : Params) (fp b : Bytes) (rows : List Device)
      → replace_row codec p fp rows ≡ ok b
      → codec.decode b ≡ some (drop_label p.label rows ++ new_device p fp ∷ [])
  unfolding replace_row
  replace_row-ok p fp b rows h = elim (Bool-cases (has_label p.label rows)) [
    | inl e ↦ encoded-ok (drop_label p.label rows ++ new_device p fp ∷ []) _ b refl (rw e at h)
    | inr e ↦ cc (rw e at h)
  ]

  -- What AppendDevice writes is read back as the rows that were there, none of them with this label,
  -- and the new device behind them.
  pub append_device-ok :
      (file : File) (p : Params) (fp b : Bytes)
      → append_device codec file p fp ≡ ok b
      → (rows : List Device) × (present_rows codec file ≡ ok rows)
        × (has_label p.label rows ≡ false)
        × (codec.decode b ≡ some (rows ++ new_device p fp ∷ []))
  unfolding append_device
  append_device-ok file p fp b h =
      let (rows, r, k) = >>=-eq-ok (present_rows codec file) (append_row codec p fp) h in
      let (free, d) = append_row-ok p fp b rows k in (rows, r, free, d)

  -- What ReplaceDevice writes is read back as the rows that were there, without those of this label,
  -- and the new device behind them.
  pub replace_device-ok :
      (file : File) (p : Params) (fp b : Bytes)
      → replace_device codec file p fp ≡ ok b
      → (rows : List Device) × (old_rows codec file ≡ ok rows)
        × (codec.decode b ≡ some (drop_label p.label rows ++ new_device p fp ∷ []))
  unfolding replace_device
  replace_device-ok file p fp b h =
      let (rows, r, k) = >>=-eq-ok (old_rows codec file) (replace_row codec p fp) h in
      (rows, r, replace_row-ok p fp b rows k)

pub last_row_new :
    (fp : Bytes) (rows : List Device) (found : Option Device) (d : Device)
    → d.cert_sha256 ≡ fp
    → last_row fp found (rows ++ d ∷ []) ≡ some d
last_row_new fp [] found d e = rw (e, equal_refl fp)
last_row_new fp (x ∷ rows) found d e =
    last_row_new fp rows (if equal x.cert_sha256 fp then some x else found) d e

equal_differs : (a b : Bytes) → equal a b ≡ false → a ≢ b
equal_differs a b e k = ground (arith, equal_iff a b)

-- Without the rows of the label, none is left with a fingerprint that only those carry.
pub drop_label-All :
    (label fp : Bytes) (rows : List Device)
    → All (λ (d : Device). (d.label ≡ label) ⊎ (d.cert_sha256 ≢ fp)) rows
    → All (λ (d : Device). d.cert_sha256 ≢ fp) (drop_label label rows)
unfolding drop_label
drop_label-All label fp [] h = tt
drop_label-All label fp (d ∷ ds) (c, h) = elim (Bool-cases (equal d.label label)) [
  | inl e ↦ rw e (drop_label-All label fp ds h)
  | inr e ↦ rw e (kept e c, drop_label-All label fp ds h)
]
  where
    kept :
        equal d.label label ≡ false → (d.label ≡ label) ⊎ (d.cert_sha256 ≢ fp) → d.cert_sha256 ≢ fp
    kept e (inl k) = absurd (equal_differs d.label label e k)
    kept e (inr k) = k
