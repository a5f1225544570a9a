-- ===== src/Proxy/Capture/Copying/Totals.antt =====
-- The count that ReadFrom returns.
use cc_mysub.Base.{
  ℕ, ◌+◌, Bytes, true, false, length, length-append, is_empty, take, Bool-cases, is_empty-true,
  List, [], ◌∷◌, ◌++◌, append_assoc, append-nil, ◌≡◌, ◌⊎◌, inl, inr, refl, sym, ap, ◌∙◌, arith,
}
use cc_mysub.Proxy.Capture.{CaptureWriter, write, read_from}
use cc_mysub.Proxy.Capture.Tee.{write-body}
use cc_mysub.Proxy.Capture.Copying.{
  After, more, eof, broken, Read, Ending, reading, done, write_failed, read_failed, Copied,
  write_short, stop, go_on, copy_from,
}

-- What the writer below has is what it had, the counted bytes, and at a failed write what it took of
-- the piece that failed.
abbrev pub Counts : CaptureWriter → ℕ → Copied → Type 0
Counts c total q =
    (out : Bytes) × (short : Bytes) × (q.writer.below.body ≡ c.below.body ++ (out ++ short))
    × (q.total ≡ total + length out)
    × ((q.ending ≡ write_failed) ⊎ (short ≡ []))

start_Counts : (c : CaptureWriter) (total : ℕ) (e : Ending) → Counts c total (stop c total e)
start_Counts c total e = ([], [], sym (append-nil c.below.body), omega arith, inr refl)

later_Counts :
    (c : CaptureWriter) (total : ℕ) (p : Bytes) (q : Copied)
    → Counts (write c p) (total + length p) q
    → Counts c total q
later_Counts c total p q (out, short, e, t, k) = (
  p ++ out,
  short,
  e
      ∙ ap (λ b. b ++ (out ++ short)) (write-body c p)
      ∙ append_assoc c.below.body p (out ++ short)
      ∙ ap (λ b. c.below.body ++ b) (sym (append_assoc p out short)),
  omega (arith, length-append p out),
  k,
)

-- Whatever fails: what the writer below has is what it had, then as many bytes as ReadFrom returns, and
-- after a failed write what it took of the piece that failed.
pub copy_from-Counts :
    (c : CaptureWriter) (total : ℕ) (rs : List Read) → Counts c total (copy_from c total rs)
unfolding copy_from write_short
copy_from-Counts c total [] = start_Counts c total reading
copy_from-Counts c total (r ∷ rs) = elim (Bool-cases (is_empty r.bytes)) [
  | inl e ↦ rw e (silent r.after (copy_from-Counts c total rs))
  | inr e ↦ elim (Bool-cases r.writes) [
    | inr w ↦ rw (e, w) ([], take r.taken r.bytes, refl, omega arith, inl refl)
    | inl w ↦
        rw (e, w) (written r.after (copy_from-Counts (write c r.bytes) (total + length r.bytes) rs))
  ]
]
  where
    silent :
        (a : After)
        → Counts c total (copy_from c total rs)
        → Counts c total (go_on a c total (copy_from c total rs))
    silent more h = h
    silent eof h = start_Counts c total done
    silent broken h = start_Counts c total read_failed

    written :
        (a : After)
        → Counts
            (write c r.bytes)
            (total + length r.bytes)
            (copy_from (write c r.bytes) (total + length r.bytes) rs)
        → Counts c total (
            go_on a
              (write c r.bytes)
              (total + length r.bytes)
              (copy_from (write c r.bytes) (total + length r.bytes) rs))
    written more h =
        later_Counts c total r.bytes (copy_from (write c r.bytes) (total + length r.bytes) rs) h
    written eof h =
        later_Counts c total r.bytes (stop (write c r.bytes) (total + length r.bytes) done)
          (start_Counts (write c r.bytes) (total + length r.bytes) done)
    written broken h =
        later_Counts c total r.bytes (stop (write c r.bytes) (total + length r.bytes) read_failed)
          (start_Counts (write c r.bytes) (total + length r.bytes) read_failed)

-- Reads that all go on, with writes that all succeed.
abbrev pub Smooth : List Read → Type 0
Smooth [] = Unit
Smooth (r ∷ rs) = (r.after ≡ more) × (r.writes ≡ true) × Smooth rs

abbrev pub sum_length : List Read → ℕ
sum_length [] = 0
sum_length (r ∷ rs) = length r.bytes + sum_length rs

abbrev pub bytes_of : List Read → List Bytes
bytes_of [] = []
bytes_of (r ∷ rs) = r.bytes ∷ bytes_of rs

read_from-empty :
    (c : CaptureWriter) (p : Bytes) (ps : List Bytes)
    → is_empty p ≡ true
    → read_from c (p ∷ ps) ≡ read_from c ps
unfolding read_from
read_from-empty c p ps e = rw e

read_from-cons :
    (c : CaptureWriter) (p : Bytes) (ps : List Bytes)
    → is_empty p ≡ false
    → read_from c (p ∷ ps) ≡ read_from (write c p) ps
unfolding read_from
read_from-cons c p ps e = rw e

stop_eq : {c d : CaptureWriter} {m n : ℕ} → c ≡ d → m ≡ n → stop c m done ≡ stop d n done
stop_eq p q = cc

copy_from-skip :
    (c : CaptureWriter) (total : ℕ) (r : Read) (rs : List Read)
    → is_empty r.bytes ≡ true
    → r.after ≡ more
    → copy_from c total (r ∷ rs) ≡ copy_from c total rs
unfolding copy_from
copy_from-skip c total r rs e a = rw (e, a)

copy_from-next :
    (c : CaptureWriter) (total : ℕ) (r : Read) (rs : List Read)
    → is_empty r.bytes ≡ false
    → r.after ≡ more
    → r.writes ≡ true
    → copy_from c total (r ∷ rs) ≡ copy_from (write c r.bytes) (total + length r.bytes) rs
unfolding copy_from
copy_from-next c total r rs e a w = rw (e, a, w)

abbrev pub last_read : ℕ → Read
last_read taken = record { bytes = []; after = eof; writes = true; taken = taken }

-- A source without errors, with no error below: what ReadFrom does is `read_from` of its pieces, and it
-- returns their length.
pub copy_from-read_from :
    (c : CaptureWriter) (total : ℕ) (rs : List Read) (taken : ℕ)
    → Smooth rs
    → copy_from c total (rs ++ last_read taken ∷ [])
      ≡ stop (read_from c (bytes_of rs)) (total + sum_length rs) done
copy_from-read_from c total [] taken h =
    unfold copy_from is_empty read_from in ap (λ n. stop c n done) (omega arith)
copy_from-read_from c total (r ∷ rs) taken (a, w, h) = elim (Bool-cases (is_empty r.bytes)) [
  | inl e ↦
      let n = ap (λ (b : Bytes). length b) (is_empty-true r.bytes e) in
      copy_from-skip c total r (rs ++ last_read taken ∷ []) e a
      ∙ copy_from-read_from c total rs taken h
      ∙ stop_eq {m = total + sum_length rs} {n = total + sum_length (r ∷ rs)}
          (sym (read_from-empty c r.bytes (bytes_of rs) e)) (omega arith)
  | inr e ↦
      copy_from-next c total r (rs ++ last_read taken ∷ []) e a w
      ∙ copy_from-read_from (write c r.bytes) (total + length r.bytes) rs taken h
      ∙ stop_eq {m = (total + length r.bytes) + sum_length rs} {n = total + sum_length (r ∷ rs)}
          (sym (read_from-cons c r.bytes (bytes_of rs) e)) (omega arith)
]
