-- ===== src/Auth/Store/Table.antt =====
-- The table against the rows of devices.json.
use mathlib.Core.Bool.{false≢true}
use cc_mysub.Base.{
  ok, Bytes, true, equal, equal_iff, equal-false, Dict, lookup, insert, lookup-insert, lookup-nil,
  Option, none, some, List, [], ◌∷◌, ◌≡◌, refl, ◌≢◌, All, if◌then◌else◌, arith, Bool-cases, inl,
  inr, sym, ap, ◌∙◌,
}
use cc_mysub.Auth.Token.{canonical_fingerprint}
use cc_mysub.Auth.Store.{Device, DeviceStore, Disk, Decoder, fill, reload, lookup_device}

-- The last row that carries the fingerprint.
abbrev pub last_row : Bytes → Option Device → List Device → Option Device
last_row fp found [] = found
last_row fp found (d ∷ ds) = last_row fp (if equal d.cert_sha256 fp then some d else found) ds

fill-last_row :
    (fp : Bytes) (ds : List Device) (m : Dict Device)
    → canonical_fingerprint fp ≡ true
    → lookup fp (fill m ds) ≡ last_row fp (lookup fp m) ds
unfolding fill
fill-last_row fp [] m c = refl
fill-last_row fp (d ∷ ds) m c = elim (Bool-cases (canonical_fingerprint d.cert_sha256)) [
  | inl ok_row ↦
      rw (ok_row, fill-last_row fp ds (insert d.cert_sha256 d m) c)
        (rw (lookup-insert d.cert_sha256 fp d m))
  | inr bad ↦
      rw (bad, fill-last_row fp ds m c)
        (rw (
          equal-false d.cert_sha256 fp
            (λ e. false≢true (sym bad ∙ ap canonical_fingerprint e ∙ c))))
]

-- After a reload of content that decodes to rows, a canonical fingerprint is answered by the last of
-- the rows that has it, and by nothing if none has; any other fingerprint is answered by nothing.
pub lookup-reload :
    (decode : Decoder) (disk : Disk) (s : DeviceStore) (b fp : Bytes) (rows : List Device)
    → reload decode disk ≡ ok s
    → disk.content ≡ some b
    → decode b ≡ some rows
    → lookup_device s fp ≡ (if canonical_fingerprint fp then last_row fp none rows else none)
unfolding reload lookup_device
lookup-reload decode disk s b fp rows e c d =
    ground (arith, fill-last_row fp rows [], lookup-nil {V = Device} fp)

last_row-none :
    (fp : Bytes) (rows : List Device)
    → All (λ (d : Device). d.cert_sha256 ≢ fp) rows
    → last_row fp none rows ≡ none
last_row-none fp [] h = refl
last_row-none fp (d ∷ ds) h = rw (equal-false d.cert_sha256 fp h.0) (last_row-none fp ds h.1)

last_row-carries :
    (fp : Bytes) (rows : List Device) (found : Option Device) (d : Device)
    → ((e : Device) → found ≡ some e → e.cert_sha256 ≡ fp)
    → last_row fp found rows ≡ some d
    → d.cert_sha256 ≡ fp
last_row-carries fp [] found d f h = f d h
last_row-carries fp (x ∷ rows) found d f h = elim (Bool-cases (equal x.cert_sha256 fp)) [
  | inl hit ↦
      last_row-carries fp rows (some x) d (λ e p. ground (arith, equal_iff x.cert_sha256 fp))
        (rw hit at h)
  | inr miss ↦ last_row-carries fp rows found d f (rw miss at h)
]

-- A table as a reload leaves it: all its answers come from rows with that fingerprint.
pub record Holds (s : DeviceStore) (rows : List Device) : Type 0 where
  pub answers :
      (fp : Bytes)
      → lookup_device s fp ≡ (if canonical_fingerprint fp then last_row fp none rows else none)

pub lookup_device-revoked :
    (s : DeviceStore) (rows : List Device) (fp : Bytes)
    → Holds s rows
    → All (λ (d : Device). d.cert_sha256 ≢ fp) rows
    → lookup_device s fp ≡ none
lookup_device-revoked s rows fp h r = ground (arith, h.answers fp, last_row-none fp rows r)

-- If a table that answers by some rows answers a fingerprint with a device, the fingerprint is
-- canonical, and is the very one of that device's row.
pub lookup_device-carries :
    (s : DeviceStore) (rows : List Device) (fp : Bytes) (d : Device)
    → Holds s rows
    → lookup_device s fp ≡ some d
    → (d.cert_sha256 ≡ fp) × (canonical_fingerprint fp ≡ true)
lookup_device-carries s rows fp d h e =
    ground (arith, h.answers fp, last_row-carries fp rows none d (λ x p. cc))
