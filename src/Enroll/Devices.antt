-- ===== src/Enroll/Devices.antt =====
-- AppendDevice and ReplaceDevice of internal/enroll/enroll.go. The result is the content that is given
-- to os.WriteFile.
pub mod Rows
pub mod Registry
use cc_mysub.Base.{
  ℕ, Bytes, Bool, true, false, equal, is_empty, trim_space, Result, ok, err, ◌>>=◌, List, [], ◌∷◌,
  ◌++◌, Option, none, some, ◌≡◌, if◌then◌else◌,
}
use cc_mysub.Auth.Store.{Device}
use cc_mysub.Enroll.{
  Params, Error, File, absent, unreadable, content, read_devices, parse_devices, duplicate_label,
  label_not_found, encode_devices,
}

-- encoding/json on []Device: json.Unmarshal, and json.MarshalIndent, whose output with a line break
-- behind it is read back as the same list.
pub record Codec : Type 0 where
  pub decode : Bytes → Option (List Device)
  pub encode : List Device → Option Bytes
  pub decode-encode :
      (rows : List Device) (b : Bytes) → encode rows ≡ some b → decode (b ++ 10 ∷ []) ≡ some rows

-- The device that is enrolled.
abbrev pub new_device : Params → Bytes → Device
new_device p fp = record {
  label = p.label;
  cert_sha256 = fp;
  rate_limit = p.rate_limit;
  upstream = p.upstream;
}

unfoldable pub has_label : Bytes → List Device → Bool
unfolding equal
has_label label [] = false
has_label label (d ∷ ds) = if equal d.label label then true else has_label label ds

-- The rows that the loop of ReplaceDevice keeps.
unfoldable pub drop_label : Bytes → List Device → List Device
unfolding equal
drop_label label [] = []
drop_label label (d ∷ ds) =
    let rest = drop_label label ds in if equal d.label label then rest else d ∷ rest

parsed : Option (List Device) → Result Error (List Device)
parsed none = err parse_devices
parsed (some rows) = ok rows

encoded : Option Bytes → Result Error Bytes
encoded none = err encode_devices
encoded (some b) = ok (b ++ 10 ∷ [])

-- A file that is absent or blank has no rows.
unfoldable pub present_rows : Codec → File → Result Error (List Device)
unfolding parsed trim_space is_empty
present_rows codec absent = ok []
present_rows codec unreadable = err read_devices
present_rows codec (content b) = if is_empty (trim_space b) then ok [] else parsed (codec.decode b)

append_row : Codec → Params → Bytes → List Device → Result Error Bytes
unfolding has_label encoded
append_row codec p fp rows =
    if has_label p.label rows
    then err duplicate_label
    else encoded (codec.encode (rows ++ new_device p fp ∷ []))

unfoldable pub append_device : Codec → File → Params → Bytes → Result Error Bytes
unfolding present_rows append_row
append_device codec file p fp = present_rows codec file >>= append_row codec p fp

unfoldable pub old_rows : Codec → File → Result Error (List Device)
unfolding parsed
old_rows codec absent = err read_devices
old_rows codec unreadable = err read_devices
old_rows codec (content b) = parsed (codec.decode b)

replace_row : Codec → Params → Bytes → List Device → Result Error Bytes
unfolding has_label drop_label encoded
replace_row codec p fp rows =
    if has_label p.label rows
    then encoded (codec.encode (drop_label p.label rows ++ new_device p fp ∷ []))
    else err label_not_found

unfoldable pub replace_device : Codec → File → Params → Bytes → Result Error Bytes
unfolding old_rows replace_row
replace_device codec file p fp = old_rows codec file >>= replace_row codec p fp
