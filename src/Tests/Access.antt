-- ===== src/Tests/Access.antt =====
-- Tests of who is known: devices.json, its reloads, add-device, and certificates.
use mathlib.Core.Bool.{false≢true}
use cc_mysub.Base.{
  equal_iff, equal, Bytes, codes, List, [], ◌∷◌, Option, none, some, ok, ◌≡◌, ◌≢◌, ◌⊎◌, refl, arith,
}
use cc_mysub.Auth.Token.{canonical_fingerprint}
use cc_mysub.Auth.Store.{Device, DeviceStore, Disk, reload, lookup_device, poll}
use cc_mysub.Auth.Store.Table.{Holds, lookup-reload}
use cc_mysub.Auth.Store.Watch.{quiet, quiet-revoked, ReloadCases, poll_cases}
use cc_mysub.Tests.Data.{laptop, phone, laptop_fp, phone_fp, laptop_store}

-- Every document has the rows of the phone only.
abbrev decode : Bytes → Option (List Device)
decode b = some (phone ∷ [])

abbrev disk : Disk
disk = record { stat = some 9; content = some (codes "[...]") }

phone_differs : phone_fp ≢ laptop_fp
unfolding equal
phone_differs e = false≢true ((equal_iff phone_fp laptop_fp).1 e)

quiet-revoked_example : lookup_device (quiet decode 3 disk laptop_store) laptop_fp ≡ none
quiet-revoked_example =
    quiet-revoked decode disk 9 (codes "[...]") (phone ∷ []) refl refl refl laptop_store 2 laptop_fp
      (omega arith) (phone_differs, tt)

-- Before that, the laptop is known.
laptop_known : lookup_device laptop_store laptop_fp ≡ some laptop
unfolding lookup_device canonical_fingerprint equal
laptop_known = refl

poll_cases_example :
    (poll decode laptop_store (some 9) disk ≡ laptop_store)
    ⊎ ReloadCases decode (poll decode laptop_store (some 9) disk) disk
poll_cases_example = poll_cases decode laptop_store (some 9) disk

abbrev loaded : DeviceStore
loaded = record { by_hash = (phone_fp, phone) ∷ []; last_mod = 9 }

loaded-reload : reload decode disk ≡ ok loaded
unfolding reload canonical_fingerprint equal
loaded-reload = refl

phone_known : lookup_device loaded phone_fp ≡ some phone
unfolding lookup_device canonical_fingerprint equal
phone_known = refl

loaded-Holds : Holds loaded (phone ∷ [])
loaded-Holds = record {
  answers = λ fp.
      lookup-reload decode disk loaded (codes "[...]") fp (phone ∷ []) loaded-reload refl refl;
}
