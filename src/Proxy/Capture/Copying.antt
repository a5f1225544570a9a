-- ===== src/Proxy/Capture/Copying.antt =====
-- ReadFrom of internal/proxy/middleware.go with the errors of both sides: `read_from` of the parent is
-- this where every write below succeeds and the source ends.
pub mod Totals
use cc_mysub.Base.{
  ℕ, suc, ◌+◌, Bytes, Bool, true, false, not, length, is_empty, take, List, [], ◌∷◌, ◌++◌,
  if◌then◌else◌,
}
use cc_mysub.Proxy.Capture.{Written, CaptureWriter, write}

-- What a Read returns beside its bytes.
pub data After : Type 0 where
  more eof broken : After

-- One Read of the source, and the write below of its bytes: whether it succeeds, and how many bytes the
-- writer takes where it does not.
pub record Read : Type 0 where
  pub bytes : Bytes
  pub after : After
  pub writes : Bool
  pub taken : ℕ

pub data Ending : Type 0 where
  reading done write_failed read_failed : Ending

pub record Copied : Type 0 where
  pub writer : CaptureWriter
  pub total : ℕ
  pub ending : Ending

-- Write with an error below: the copy has all the bytes, the writer below those that it took.
unfoldable pub write_short : CaptureWriter → Bytes → ℕ → CaptureWriter
unfolding write
write_short c p n = record (write c p) {
  below = record { status = (write c p).below.status; body = c.below.body ++ take n p };
}

abbrev pub stop : CaptureWriter → ℕ → Ending → Copied
stop c total e = record { writer = c; total = total; ending = e }

-- Behind the write of a read's bytes.
abbrev pub go_on : After → CaptureWriter → ℕ → Copied → Copied
go_on more c total rest = rest
go_on eof c total rest = stop c total done
go_on broken c total rest = stop c total read_failed

unfoldable pub copy_from : CaptureWriter → ℕ → List Read → Copied
unfolding write is_empty
copy_from c total [] = stop c total reading
copy_from c total (r ∷ rs) =
    let rest = copy_from c total rs in
    let more_rest = copy_from (write c r.bytes) (total + length r.bytes) rs in
    if is_empty r.bytes
    then go_on r.after c total rest
    else if not r.writes
    then stop (write_short c r.bytes r.taken) total write_failed
    else go_on r.after (write c r.bytes) (total + length r.bytes) more_rest
