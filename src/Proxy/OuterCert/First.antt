-- ===== src/Proxy/OuterCert/First.antt =====
-- The first load of internal/proxy/outercert.go.
use cc_mysub.Base.{ℕ, Bytes, Result, ok, Option, none, some, ◌≡◌, refl, sym, ap}
use cc_mysub.Proxy.OuterCert.{
  Disk, Loader, Error, new_outer_cert_loader, get, at_time, kept, loaded,
}

-- The pair of the files and their time are kept.
abbrev pub Presents : Disk → Loader → Type 0
Presents disk l =
    (mtime : ℕ) × (pair : Bytes) × (disk.stat ≡ some mtime)
    × (disk.pair ≡ some pair)
    × (l.cached ≡ some pair)
    × (l.mod_time ≡ mtime)

at_time-Presents :
    (stat : Option ℕ) (files : Option Bytes) (l : Loader) (pair : Bytes)
    → at_time new_outer_cert_loader stat files ≡ (l, ok pair)
    → Presents (record { stat = stat; pair = files }) l
unfolding at_time kept loaded
at_time-Presents none files l pair h = cc
at_time-Presents (some t) none l pair h = cc
at_time-Presents (some t) (some p) l pair h =
    let same = ap (λ (q : Loader × Result Error Bytes). q.0) h in
    (
      t,
      p,
      refl,
      refl,
      sym (ap (λ (k : Loader). k.cached) same),
      sym (ap (λ (k : Loader). k.mod_time) same),
    )

pub get-Presents :
    (disk : Disk) (l : Loader) (pair : Bytes)
    → get new_outer_cert_loader disk ≡ (l, ok pair)
    → Presents disk l
unfolding get
get-Presents disk l pair h = at_time-Presents disk.stat disk.pair l pair h
