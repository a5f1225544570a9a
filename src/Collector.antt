-- ===== src/Collector.antt =====
-- ci/egress/collector/sni.go: the host name in a TLS ClientHello.
pub mod Slices
pub mod Bounds
pub mod Wire
pub mod Entries
pub mod Hello
use cc_mysub.Base.{
  ℕ, zero, suc, ◌+◌, ◌*◌, Bytes, Bool, true, false, not, ◌||◌, ◌==◌, ltb, leb, length, take, drop,
  List, [], ◌∷◌, Option, none, some, if◌then◌else◌,
}

-- `none` is a panic of an index or a slice out of range, `some none` the answer ("", false).
abbrev pub Found : Type 0
Found = Option (Option Bytes)

abbrev pub absent : Found
absent = some none

-- b[i]
abbrev at : ℕ → Bytes → Option ℕ
at i [] = none
at zero (c ∷ b) = some c
at (suc i) (c ∷ b) = at i b

-- b[n:] and b[:n]. Go panics in the second only beyond the capacity; here it may not pass the length.
pub from : ℕ → Bytes → Option Bytes
from n b = if leb n (length b) then some (drop n b) else none

pub upto : ℕ → Bytes → Option Bytes
upto n b = if leb n (length b) then some (take n b) else none

abbrev step : {A : Type 0} → Option A → (A → Found) → Found
step none k = none
step (some a) k = k a

-- binary.BigEndian.Uint16(b[i:i+2])
abbrev word : ℕ → Bytes → (ℕ → Found) → Found
word i b k = step (at i b) (λ hi. step (at (i + 1) b) (λ lo. k (hi * 256 + lo)))

-- A vector behind a length of one byte, or of two, is passed over.
pub skip8 : Bytes → (Bytes → Found) → Found
unfolding from
skip8 p k =
    if ltb (length p) 1
    then absent
    else step (at 0 p) (λ n. if ltb (length p) (1 + n) then absent else step (from (1 + n) p) k)

pub skip16 : Bytes → (Bytes → Found) → Found
unfolding from
skip16 p k =
    if ltb (length p) 2
    then absent
    else word 0 p (λ n. if ltb (length p) (2 + n) then absent else step (from (2 + n) p) k)

-- The loop over the entries of a server_name_list; `next` is what follows it. The first argument is
-- fuel: a loop that ran out of it would count as a panic.
unfoldable pub names : ℕ → Bytes → Found → Found
unfolding from upto
names zero sn next = none
names (suc fuel) sn next =
    if ltb (length sn) 3
    then next
    else step (at 0 sn) (λ name_type. word 1 sn (λ nl. step (from 3 sn) (λ r.
      if ltb (length r) nl
      then absent
      else if name_type == 0
      then step (upto nl r) (λ h. some (some h))
      else step (from nl r) (λ more. names fuel more next))))

-- The loop over the extensions.
unfoldable pub extensions : ℕ → Bytes → Found
unfolding names
extensions zero p = none
extensions (suc fuel) p =
    if ltb (length p) 4
    then absent
    else word 0 p (λ etype. word 2 p (λ elen. step (from 4 p) (λ q.
      if ltb (length q) elen
      then absent
      else step (upto elen q) (λ ext. step (from elen q) (λ more.
        if not (etype == 0)
        then extensions fuel more
        else if ltb (length ext) 2
        then absent
        else step (from 2 ext) (λ sn. names (suc (length sn)) sn (extensions fuel more)))))))

extension_block : Bytes → Found
unfolding extensions
extension_block p =
    if ltb (length p) 2
    then absent
    else word 0 p (λ total. step (from 2 p) (λ q.
      if ltb (length q) total
      then absent
      else step (upto total q) (λ e. extensions (suc (length e)) e)))

-- Behind the four bytes of the handshake header.
client_hello : Bytes → Found
unfolding skip8 skip16 extension_block
client_hello p =
    if ltb (length p) 34
    then absent
    else step (from 34 p) (λ a. skip8 a (λ b. skip16 b (λ c. skip8 c extension_block)))

handshake : Bytes → Found
unfolding client_hello
handshake hs =
    step (at 0 hs) (λ msg. if not (msg == 1) then absent else step (from 4 hs) client_hello)

-- ParseSNI
unfoldable pub parse_sni : Bytes → Found
unfolding handshake
parse_sni b =
    if ltb (length b) 5
    then absent
    else step (at 0 b) (λ kind.
      if not (kind == 22)
      then absent
      else word 3 b (λ rec.
        step (from 5 b) (λ hs.
          if ltb (length hs) rec || ltb rec 4 then absent else step (upto rec hs) handshake)))
