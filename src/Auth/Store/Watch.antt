-- ===== src/Auth/Store/Watch.antt =====
-- The poll for changes of devices.json.
use cc_mysub.Base.{
  ok, err, ℕ, zero, suc, ◌<◌, Bytes, ltb, lt→ltb, Option, none, some, Option-cases, Bool-cases,
  List, [], ◌≡◌, refl, sym, ap, subst, ◌≢◌, ◌⊎◌, inl, inr, All, arith,
}
use cc_mysub.Auth.Store.{
  Device, DeviceStore, Disk, Decoder, fill, reload, lookup_device, poll, poll_at, Error,
  stat_devices, read_devices, parse_devices, stat_file, read_list, load,
}
use cc_mysub.Auth.Store.Table.{Holds, lookup-reload, lookup_device-revoked}

module _ (decode : Decoder) where
  reload-Holds :
      (disk : Disk) (s : DeviceStore) (b : Bytes) (rows : List Device)
      → reload decode disk ≡ ok s
      → disk.content ≡ some b
      → decode b ≡ some rows
      → Holds s rows
  reload-Holds disk s b rows e c d = record {
    answers = λ fp. lookup-reload decode disk s b fp rows e c d;
  }

  -- The ticks of a quiet file: every os.Stat and every reload sees the same version.
  abbrev pub quiet : ℕ → Disk → DeviceStore → DeviceStore
  quiet zero disk s = s
  quiet (suc n) disk s = quiet n disk (poll decode s disk.stat disk)

  quiet-settled :
      (n : ℕ) (disk : Disk) (s : DeviceStore) → disk.stat ≡ some s.last_mod → quiet n disk s ≡ s
  unfolding poll
  quiet-settled zero disk s e = refl
  quiet-settled (suc n) disk s e =
      let same : poll decode s disk.stat disk ≡ s = ground arith in
      rw same (quiet-settled n disk s e)

  module _ (disk : Disk) (mtime : ℕ) (b : Bytes) (rows : List Device)
      (stat : disk.stat ≡ some mtime) (content : disk.content ≡ some b)
      (parsed : decode b ≡ some rows) where
    loaded : DeviceStore
    loaded = record { by_hash = fill [] rows; last_mod = mtime }

    reload-loaded : reload decode disk ≡ ok loaded
    unfolding reload fill loaded
    reload-loaded = ground arith

    poll-loaded : (s : DeviceStore) → s.last_mod < mtime → poll decode s disk.stat disk ≡ loaded
    unfolding poll loaded
    poll-loaded s newer = rw (stat, poll_at, lt→ltb _ _ newer, reload-loaded)

    quiet-loaded : (s : DeviceStore) (n : ℕ) → s.last_mod < mtime → quiet (suc n) disk s ≡ loaded
    unfolding loaded
    quiet-loaded s n newer = rw (poll-loaded s newer) (quiet-settled n disk loaded stat)

    -- Once a version of devices.json with a later time than the last one loaded is in place, readable
    -- and well-formed, the table after the first tick, and after any number of further ones that see
    -- this version, answers every fingerprint by the rows of that version, and has its time.
    pub quiet-Holds :
        (s : DeviceStore) (n : ℕ)
        → s.last_mod < mtime
        → Holds (quiet (suc n) disk s) rows × ((quiet (suc n) disk s).last_mod ≡ mtime)
    unfolding loaded
    quiet-Holds s n newer =
        let e = quiet-loaded s n newer in
        (
          subst (λ t. Holds t rows) (sym e)
              (reload-Holds disk loaded b rows reload-loaded content parsed),
          ap (λ (t : DeviceStore). t.last_mod) e,
        )

    -- Once a version of devices.json with a later time than the last one loaded is in place, readable
    -- and well-formed, and none of its rows has the fingerprint, the fingerprint is refused after the
    -- first tick and after any number of further ones that see this version.
    pub quiet-revoked :
        (s : DeviceStore) (n : ℕ) (fp : Bytes)
        → s.last_mod < mtime
        → All (λ (d : Device). d.cert_sha256 ≢ fp) rows
        → lookup_device (quiet (suc n) disk s) fp ≡ none
    quiet-revoked s n fp newer gone = lookup_device-revoked _ rows fp (quiet-Holds s n newer).0 gone

  abbrev pub ReloadCases : DeviceStore → Disk → Type 0
  ReloadCases t disk =
      (b : Bytes) × (rows : List Device) × (disk.content ≡ some b)
      × (decode b ≡ some rows)
      × Holds t rows

  pub reload_cases :
      (disk : Disk)
      → ((e : Error) × (reload decode disk ≡ err e))
        ⊎ ((t : DeviceStore) × (reload decode disk ≡ ok t) × ReloadCases t disk)
  unfolding reload
  reload_cases disk = elim (Option-cases disk.stat) [
    | inl e ↦ inl (stat_devices, rw (e, stat_file))
    | inr (t, e) ↦ elim (Option-cases disk.content) [
      | inl c ↦ inl (read_devices, rw (e, c, stat_file, read_list))
      | inr (b, c) ↦ elim (Option-cases (decode b)) [
        | inl d ↦ inl (parse_devices, rw (e, c, d, stat_file, read_list, load))
        | inr (rows, d) ↦
            let u : DeviceStore = record { by_hash = fill [] rows; last_mod = t } in
            let r : reload decode disk ≡ ok u = ground arith in
            inr (u, r, (b, rows, c, d, reload-Holds disk u b rows r c d))
      ]
    ]
  ]

  -- After a tick, whatever the file system answers, the table is the old one, or the content that was
  -- read decodes to rows by which the table answers.
  pub poll_cases :
      (s : DeviceStore) (seen : Option ℕ) (disk : Disk)
      → (poll decode s seen disk ≡ s) ⊎ ReloadCases (poll decode s seen disk) disk
  unfolding poll
  poll_cases s none disk = inl refl
  poll_cases s (some mtime) disk = elim (Bool-cases (ltb s.last_mod mtime)) [
    | inr old ↦ inl (rw old)
    | inl newer ↦ elim (reload_cases disk) [
      | inl (e, r) ↦ inl (rw (newer, r))
      | inr (t, r, c) ↦ inr (rw (newer, r) c)
    ]
  ]
