-- ===== src/Proxy/OuterCert.antt =====
-- internal/proxy/outercert.go: the outer TLS certificate, kept until its file has a newer time. What
-- os.Stat and tls.LoadX509KeyPair give is the argument `Disk`; a call is one step.
pub mod Renewal
pub mod First
use cc_mysub.Base.{
  ℕ, Bytes, Bool, true, false, not, ◌||◌, ltb, Result, ok, err, Option, none, some, ◌≡◌,
  if◌then◌else◌,
}

-- The pair is what a load at that moment gives.
pub record Disk : Type 0 where
  pub stat : Option ℕ
  pub pair : Option Bytes

pub record Loader : Type 0 where
  pub cached : Option Bytes
  pub mod_time : ℕ

-- time.Time's zero value is before every file time.
abbrev pub new_outer_cert_loader : Loader
new_outer_cert_loader = record { cached = none; mod_time = 0 }

pub data Error : Type 0 where
  stat_outer_cert load_outer_cert : Error

loaded : Loader → ℕ → Option Bytes → Loader × Result Error Bytes
loaded l mtime none = (l, err load_outer_cert)
loaded l mtime (some pair) = (record { cached = some pair; mod_time = mtime }, ok pair)

kept : Loader → ℕ → Option Bytes → Option Bytes → Loader × Result Error Bytes
unfolding loaded
kept l mtime none pair = loaded l mtime pair
kept l mtime (some c) pair = if ltb l.mod_time mtime then loaded l mtime pair else (l, ok c)

at_time : Loader → Option ℕ → Option Bytes → Loader × Result Error Bytes
unfolding kept
at_time l none pair = (l, err stat_outer_cert)
at_time l (some mtime) pair = kept l mtime l.cached pair

unfoldable pub get : Loader → Disk → Loader × Result Error Bytes
unfolding at_time
get l disk = at_time l disk.stat disk.pair
