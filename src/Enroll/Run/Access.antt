-- ===== src/Enroll/Run/Access.antt =====
-- From add-device to the proxy: who can connect after the command.
use cc_mysub.Base.{
  Bytes, true, false, is_empty, subst, Bool-cases, Result, ok, ◌>>=◌, All, All-append, List, [],
  ◌∷◌, ◌++◌, Option, none, some, ◌≡◌, ◌≢◌, ◌⊎◌, inl, inr, refl, sym, ap, >>=-eq-ok, ℕ, suc, ◌<◌,
  ◌∙◌, if◌then◌else◌,
}
use cc_mysub.Auth.Token.{Sha256, canonical_fingerprint}
use cc_mysub.Auth.Store.{Device, DeviceStore, lookup_device}
use cc_mysub.Auth.Store.Table.{last_row, lookup_device-revoked}
use cc_mysub.Config.{ClientConfig}
use cc_mysub.Enroll.{Params, Error, File, content, resolve}
use cc_mysub.Enroll.Devices.{Codec, new_device, drop_label, old_rows}
use cc_mysub.Enroll.Devices.Rows.{append_device-ok, replace_device-ok, last_row_new, drop_label-All}
use cc_mysub.Enroll.Run.{Dir, Host, Flags, run}
use cc_mysub.Enroll.Fingerprint.{resolve_fingerprint-canonical}
use cc_mysub.Enroll.Run.Steps.{op, run-ok, Keeps, resolve-Keeps}
use cc_mysub.Auth.Store.{Disk}
use cc_mysub.Auth.Store.Watch.{quiet, quiet-Holds}

module _ (sha : Sha256) (pem_decode : Bytes → Option Bytes) (codec : Codec) (host : Host)
    (flags : Flags) (cfg : Result Error (Option ClientConfig)) (cert : File) (dir : Dir)
    (fp b : Bytes) (done : (run sha pem_decode codec host flags cfg cert dir).1 ≡ ok fp)
    (devices : (run sha pem_decode codec host flags cfg cert dir).0.devices ≡ content b) where
  admitted_params :
      (p : Params) → (cfg >>= λ def. resolve def flags.params) ≡ ok p → Keeps flags.params p
  admitted_params p e =
      let (def, c, r) = >>=-eq-ok cfg (λ x. resolve x flags.params) e in
      (resolve-Keeps def flags.params p r).0

  -- The command line named a label.
  pub labelled : is_empty flags.params.label ≡ false
  labelled =
      let (x, p, r, f, o, d) = run-ok sha pem_decode codec host flags cfg cert dir fp done in
      let (def, c, e) = >>=-eq-ok cfg (λ y. resolve y flags.params) r in
      let (keeps, n) = resolve-Keeps def flags.params p e in
      subst (λ y. is_empty y ≡ false) keeps.0 n

  content_eq : (x y : Bytes) → content x ≡ content y → x ≡ y
  content_eq x y e = cc

  -- The new file's rows end with the new device.
  op-rows :
      (x : Bytes) (p : Params)
      → op sha pem_decode codec host flags p dir fp ≡ ok x
      → (before : List Device) × (codec.decode x ≡ some (before ++ new_device p fp ∷ []))
  op-rows x p o = elim (Bool-cases flags.rotate) [
    | inl c ↦
        let (rows, r, d) = replace_device-ok codec dir.devices p fp x (rw c at o) in
        (drop_label p.label rows, d)
    | inr c ↦
        let (rows, r, free, d) = append_device-ok codec dir.devices p fp x (rw c at o) in (rows, d)
  ]

  run-rows :
      (p : Params) × Keeps flags.params p
      × ((before : List Device) × (codec.decode b ≡ some (before ++ new_device p fp ∷ [])))
  run-rows =
      let (x, p, r, f, o, d) = run-ok sha pem_decode codec host flags cfg cert dir fp done in
      let (before, e) = op-rows x p o in
      (p, admitted_params p r, (before, ap codec.decode (content_eq b x (sym devices ∙ d)) ∙ e))

  canonical : canonical_fingerprint fp ≡ true
  canonical =
      let (x, p, r, f, o, d) = run-ok sha pem_decode codec host flags cfg cert dir fp done in
      resolve_fingerprint-canonical sha pem_decode flags.fingerprint flags.client_cert cert fp f

  module _ (disk : Disk) (mtime : ℕ) (stat : disk.stat ≡ some mtime) (now : disk.content ≡ some b)
      (s : DeviceStore) (n : ℕ) (newer : s.last_mod < mtime) where
    -- After an add-device that succeeded, a rotation or not, a proxy that polls the file that was
    -- written, with a later time than the last one it loaded, answers the printed fingerprint with a
    -- device of the label, pool id and limit of the command line, from the first tick on.
    pub admits :
        (d : Device) × (lookup_device (quiet codec.decode (suc n) disk s) fp ≡ some d)
        × (d.label ≡ flags.params.label)
        × (d.upstream ≡ flags.params.upstream)
        × (d.rate_limit ≡ flags.params.rate_limit)
    admits =
        let (p, (kl, kr, ku), (before, e)) = run-rows in
        let (h, m) =
          quiet-Holds codec.decode disk mtime b (before ++ new_device p fp ∷ []) stat now e s n
            newer in
        (new_device p fp, h.answers fp ∙ found p before, kl, ku, kr)
      where
        found :
            (p : Params) (before : List Device)
            → (if canonical_fingerprint fp
                then last_row fp none (before ++ new_device p fp ∷ [])
                else none)
              ≡ some (new_device p fp)
        found p before = rw canonical (last_row_new fp before none (new_device p fp) refl)

    -- After a rotation that succeeded, with a fingerprint other than the old one: if among the old rows
    -- only those of the label have the old fingerprint, a proxy that polls the file that was written,
    -- with a later time than the last one it loaded, refuses the old fingerprint from the first tick
    -- on.
    pub rotate_revokes :
        (old : Bytes) (rows : List Device)
        → flags.rotate ≡ true
        → old_rows codec dir.devices ≡ ok rows
        → fp ≢ old
        → All (λ (d : Device). (d.label ≡ flags.params.label) ⊎ (d.cert_sha256 ≢ old)) rows
        → lookup_device (quiet codec.decode (suc n) disk s) old ≡ none
    rotate_revokes old rows rot r differs gone =
        let (x, p, a, f, o, d) = run-ok sha pem_decode codec host flags cfg cert dir fp done in
        let (rows', r', e) = replace_device-ok codec dir.devices p fp x (rw rot at o) in
        let same : rows' ≡ rows = cc in
        let (kl, kr, ku) = admitted_params p a in
        let e' = ap codec.decode (content_eq b x (sym devices ∙ d)) ∙ e in
        let (h, m) =
          quiet-Holds codec.decode disk mtime b (drop_label p.label rows' ++ new_device p fp ∷ [])
            stat now e' s n newer in
        lookup_device-revoked _ _ old h
          (All-append _ (drop_label p.label rows') _ (kept p rows' kl same) (differs, tt))
      where
        kept :
            (p : Params) (rows' : List Device)
            → p.label ≡ flags.params.label
            → rows' ≡ rows
            → All (λ (d : Device). d.cert_sha256 ≢ old) (drop_label p.label rows')
        kept p rows' k e = rw (k, e) (drop_label-All flags.params.label old rows gone)
