-- ===== src/Proxy/OuterCert/Renewal.antt =====
-- Renewals of the outer certificate.
use cc_mysub.Base.{
  ℕ, ◌<◌, Bytes, ltb, lt→ltb, ltb_of_le, Bool-cases, Result, ok, err, Option, none, some,
  Option-cases, ◌≡◌, inl, inr, refl, ap, ◌∙◌, arith, List, [], ◌∷◌, All,
}
use cc_mysub.Proxy.OuterCert.{Disk, Loader, Error, loaded, kept, at_time, get}

-- The states of a loader behind handshakes at which the disk is so.
abbrev pub handshakes : List Disk → Loader → Loader
handshakes [] l = l
handshakes (d ∷ ds) l = handshakes ds (get l d).0

get-renewed :
    (l : Loader) (disk : Disk) (mtime : ℕ) (pair : Bytes)
    → disk.stat ≡ some mtime
    → disk.pair ≡ some pair
    → l.mod_time < mtime
    → get l disk ≡ (record { cached = some pair; mod_time = mtime }, ok pair)
unfolding get
get-renewed l disk mtime pair s p h = rw (s, p) (by_cached l.cached)
  where
    by_cached :
        (o : Option Bytes)
        → at_time (record l { cached = o }) (some mtime) (some pair)
          ≡ (record { cached = some pair; mod_time = mtime }, ok pair)
    by_cached none = refl
    by_cached (some c) = rw (lt→ltb l.mod_time mtime h) refl

get-settled :
    (pair : Bytes) (mtime : ℕ) (disk : Disk)
    → disk.stat ≡ some mtime
    → get (record { cached = some pair; mod_time = mtime }) disk
      ≡ (record { cached = some pair; mod_time = mtime }, ok pair)
unfolding get
get-settled pair mtime disk s = rw (s, at_time, kept, ltb_of_le mtime mtime (omega arith)) refl

handshakes-settled :
    (pair : Bytes) (mtime : ℕ) (ds : List Disk)
    → All (λ (d : Disk). d.stat ≡ some mtime) ds
    → handshakes ds (record { cached = some pair; mod_time = mtime })
      ≡ record { cached = some pair; mod_time = mtime }
handshakes-settled pair mtime [] h = refl
handshakes-settled pair mtime (d ∷ ds) (s, h) =
    ap (λ (q : Loader × Result Error Bytes). handshakes ds q.0) (get-settled pair mtime d s)
    ∙ handshakes-settled pair mtime ds h

-- If the certificate file has a later time than the last one loaded and its pair loads, the handshake
-- is given that pair, and so is every later one between which and this the file's time is the same,
-- whatever the files then hold.
pub get-renewal :
    (l : Loader) (disk later : Disk) (ds : List Disk) (mtime : ℕ) (pair : Bytes)
    → disk.stat ≡ some mtime
    → disk.pair ≡ some pair
    → l.mod_time < mtime
    → All (λ (d : Disk). d.stat ≡ some mtime) ds
    → later.stat ≡ some mtime
    → ((get l disk).1 ≡ ok pair) × ((get (handshakes ds (get l disk).0) later).1 ≡ ok pair)
get-renewal l disk later ds mtime pair s p newer h t =
    let e = get-renewed l disk mtime pair s p newer in
    (
      ap (λ (q : Loader × Result Error Bytes). q.1) e,
      ap (λ (q : Loader × Result Error Bytes). (get (handshakes ds q.0) later).1) e
          ∙ ap (λ m. (get m later).1) (handshakes-settled pair mtime ds h)
          ∙ ap (λ (q : Loader × Result Error Bytes). q.1) (get-settled pair mtime later t),
    )

loaded-error :
    (l : Loader) (mtime : ℕ) (pair : Option Bytes) (e : Error)
    → (loaded l mtime pair).1 ≡ err e
    → (loaded l mtime pair).0 ≡ l
unfolding loaded
loaded-error l mtime none e h = refl
loaded-error l mtime (some p) e h = cc

kept-error :
    (l : Loader) (mtime : ℕ) (c pair : Option Bytes) (e : Error)
    → (kept l mtime c pair).1 ≡ err e
    → (kept l mtime c pair).0 ≡ l
unfolding kept
kept-error l mtime none pair e h = loaded-error l mtime pair e h
kept-error l mtime (some c) pair e h = elim (Bool-cases (ltb l.mod_time mtime)) [
  | inl n ↦ rw n (loaded-error l mtime pair e (rw n at h))
  | inr n ↦ rw n refl
]

-- A handshake that fails for want of the files keeps the loader, so that the next one tries again.
pub get-error : (l : Loader) (disk : Disk) (e : Error) → (get l disk).1 ≡ err e → (get l disk).0 ≡ l
unfolding get
get-error l disk e h = elim (Option-cases disk.stat) [
  | inl s ↦ rw s refl
  | inr (t, s) ↦ rw s (kept-error l t l.cached disk.pair e (rw s at h))
]
