-- ===== src/Auth/Store.antt =====
-- internal/auth/store.go: the table of devices, its reload and the poll for changes. Locks and the
-- goroutine are not modelled: each operation runs whole under the lock. The JSON decoder is a
-- parameter; what os.Stat and os.ReadFile return is the argument `Disk`.
pub mod Table
pub mod Watch
use cc_mysub.Base.{
  ℕ, Bytes, Bool, true, false, ltb, Result, ok, err, Dict, lookup, insert, Option, none, some, List,
  [], ◌∷◌, ℤ, if◌then◌else◌,
}
use cc_mysub.Auth.Token.{canonical_fingerprint}

pub record Device : Type 0 where
  pub label : Bytes
  pub cert_sha256 : Bytes
  pub rate_limit : ℤ
  pub upstream : Bytes

-- What the file system answers: the modification time, and the content. They are asked for one after
-- the other, so they may belong to different versions of the file.
pub record Disk : Type 0 where
  pub stat : Option ℕ
  pub content : Option Bytes

pub record DeviceStore : Type 0 where
  pub by_hash : Dict Device
  pub last_mod : ℕ

pub data Error : Type 0 where
  stat_devices read_devices parse_devices : Error

abbrev pub Reload : Type 0
Reload = Result Error DeviceStore

-- The loop that fills the new table; rows without a canonical fingerprint are left out.
unfoldable pub fill : Dict Device → List Device → Dict Device
unfolding insert
fill m [] = m
fill m (d ∷ ds) =
    fill (if canonical_fingerprint d.cert_sha256 then insert d.cert_sha256 d m else m) ds

-- json.Unmarshal into []Device.
abbrev pub Decoder : Type 0
Decoder = Bytes → Option (List Device)

load : ℕ → Option (List Device) → Reload
unfolding fill
load mtime none = err parse_devices
load mtime (some list) = ok (record { by_hash = fill [] list; last_mod = mtime })

read_list : Decoder → ℕ → Option Bytes → Reload
unfolding load
read_list decode mtime none = err read_devices
read_list decode mtime (some b) = load mtime (decode b)

stat_file : Decoder → Option ℕ → Option Bytes → Reload
unfolding read_list
stat_file decode none content = err stat_devices
stat_file decode (some mtime) content = read_list decode mtime content

unfoldable pub reload : Decoder → Disk → Reload
unfolding stat_file
reload decode disk = stat_file decode disk.stat disk.content

-- NewDeviceStore: a store, or the error of the first load.
abbrev pub new_device_store : Decoder → Disk → Reload
new_device_store = reload

unfoldable pub lookup_device : DeviceStore → Bytes → Option Device
unfolding lookup
lookup_device s fp = if canonical_fingerprint fp then lookup fp s.by_hash else none

abbrev keep : DeviceStore → Reload → DeviceStore
keep s (ok t) = t
keep s (err e) = s

poll_at : Decoder → DeviceStore → Disk → Option ℕ → DeviceStore
unfolding reload
poll_at decode s disk none = s
poll_at decode s disk (some mtime) = if ltb s.last_mod mtime then keep s (reload decode disk) else s

-- One tick of StartWatch: `seen` is the answer to its own os.Stat, `disk` those that reload gets.
unfoldable pub poll : Decoder → DeviceStore → Option ℕ → Disk → DeviceStore
unfolding poll_at
poll decode s seen disk = poll_at decode s disk seen
