-- ===== src/DeviceInit/Atomic.antt =====
-- writeFileAtomic of cmd/cc-mysub/deviceinit.go.
use cc_mysub.Base.{ℕ, Bytes, Bool, true, false, Option, none, some, ◌≡◌, ◌⊎◌, arith, if◌then◌else◌}

pub record FileAt : Type 0 where
  pub bytes : Bytes
  pub mode : ℕ

-- The file of the path, and the temporary one in the same directory.
pub record Slot : Type 0 where
  pub target : Option FileAt
  pub temp : Option FileAt

-- Which calls succeed; a write that fails leaves some bytes behind.
pub record Calls : Type 0 where
  pub create_temp : Bool
  pub write : Bool
  pub partial : Bytes
  pub close : Bool
  pub chmod : Bool
  pub rename : Bool

abbrev pub temp_mode : ℕ
temp_mode = 0o600

-- The deferred os.Remove, which finds nothing after a rename.
abbrev remove_temp : Slot → Slot
remove_temp s = record s { temp = none }

renamed : Calls → Bytes → ℕ → Slot → Slot × Bool
renamed c data' perm s =
    if c.rename
    then (record { target = some (record { bytes = data'; mode = perm }); temp = none }, true)
    else (record s { temp = some (record { bytes = data'; mode = perm }) }, false)

written : Calls → Bytes → ℕ → Slot → Slot × Bool
unfolding renamed
written c data' perm s =
    let full = record s { temp = some (record { bytes = data'; mode = temp_mode }) } in
    if c.write
    then (if c.close
        then (if c.chmod then renamed c data' perm full else (full, false))
        else (full, false))
    else (record s { temp = some (record { bytes = c.partial; mode = temp_mode }) }, false)

-- The file system after the call, and whether it succeeded.
unfoldable pub write_file_atomic : Calls → Bytes → ℕ → Slot → Slot × Bool
unfolding written
write_file_atomic c data' perm s =
    if c.create_temp
    then (let (after, done) = written c data' perm s in (remove_temp after, done))
    else (s, false)

-- Where no temporary file stands, the call fails and changes nothing, or puts the bytes there with the
-- mode; no temporary file stays.
pub write_file_atomic_lem :
    (c : Calls) (data' : Bytes) (perm : ℕ) (target : Option FileAt)
    → ((write_file_atomic c data' perm (record { target = target; temp = none })
          ≡ (record { target = target; temp = none }, false))
        ⊎ (write_file_atomic c data' perm (record { target = target; temp = none }) ≡ (
          record { target = some (record { bytes = data'; mode = perm }); temp = none },
          true,
        )))
unfolding write_file_atomic
write_file_atomic_lem c data' perm target = ground arith
