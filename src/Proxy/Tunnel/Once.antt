-- ===== src/Proxy/Tunnel/Once.antt =====
-- Serve handles one connection, and returns only when it has been closed.
use cc_mysub.Base.{
  ℕ, suc, ◌+◌, ◌≤◌, ◌<◌, Bool, true, false, Bool-cases, ◌≡◌, ◌⊎◌, inl, inr, refl, ap, arith,
}
use cc_mysub.Proxy.Tunnel.{
  Place, accepting, blocked, returned, Tunnel, conn, waits, accept, begin_close, ServeStep, takes,
  blocks, leaves, Step, serves, begins_close, closes, ends, Reachable, start, step,
}

abbrev bit : Bool → ℕ
bit true = 1
bit false = 0

-- Which flags are set where Serve is.
abbrev asks_used : Place → ℕ
asks_used accepting = 0
asks_used _ = 1

abbrev asks_once : Place → ℕ
asks_once returned = 1
asks_once _ = 0

abbrev IsValid : Tunnel → Type 0
IsValid t =
    (t.channel_closes ≡ bit t.once)
    × (bit t.once ≤ t.closing + t.conn_closes)
    × (t.serving ≤ bit t.used)
    × (bit t.once ≤ bit t.used)
    × (asks_used t.place ≤ bit t.used)
    × (asks_once t.place ≤ bit t.once)

accept-conn :
    (t u : Tunnel) → accept t ≡ (u, conn) → (t.used ≡ false) × (u ≡ record t { used = true })
unfolding accept
accept-conn t u f = (ground arith, ground arith)

accept-waits : (t u : Tunnel) → accept t ≡ (u, waits) → (t.used ≡ true) × (u ≡ t)
unfolding accept
accept-waits t u f = (ground arith, ground arith)

begin_close-IsValid : (t : Tunnel) → IsValid t → 0 < t.serving → IsValid (begin_close t)
unfolding begin_close
begin_close-IsValid t v h = elim (Bool-cases t.once) [
  | inl e ↦ let k = ap bit e in rw e (omega arith)
  | inr e ↦ let k = ap bit e in rw e (omega arith)
]

ServeStep-IsValid : (t u : Tunnel) → IsValid t → ServeStep t u → IsValid u
ServeStep-IsValid t _ v (takes u e f) =
    let (g, h) = accept-conn t u f in let k = ap bit g in rw h (omega arith)
ServeStep-IsValid t _ v (blocks u e f) =
    let (g, h) = accept-waits t u f in let k = ap bit g in rw h (omega arith)
ServeStep-IsValid t _ v (leaves e h) = omega (arith, ap asks_used e)

Step-IsValid : (t u : Tunnel) → IsValid t → Step t u → IsValid u
Step-IsValid t u v (serves _ s) = ServeStep-IsValid t u v s
Step-IsValid t _ v (begins_close h) = begin_close-IsValid t v h
Step-IsValid t _ v (closes h) = omega arith
Step-IsValid t _ v (ends h k) = omega arith

Reachable-IsValid : (t : Tunnel) → Reachable t → IsValid t
Reachable-IsValid _ start = omega arith
Reachable-IsValid u (step t _ r s) = Step-IsValid t u (Reachable-IsValid t r) s

bit-one : (b : Bool) → 1 ≤ bit b → b ≡ true
bit-one true h = refl
bit-one false h = absurd (omega arith)

ServeStep-progress :
    (t : Tunnel)
    → IsValid t
    → ((t.place ≡ returned) × (t.once ≡ true) × (0 < t.closing + t.conn_closes))
      ⊎ ((t.place ≡ blocked) × (t.once ≡ false))
      ⊎ ((u : Tunnel) × ServeStep t u)
unfolding accept
ServeStep-progress t v = at_place t.place refl
  where
    at_place :
        (p : Place)
        → t.place ≡ p
        → ((t.place ≡ returned) × (t.once ≡ true) × (0 < t.closing + t.conn_closes))
          ⊎ ((t.place ≡ blocked) × (t.once ≡ false))
          ⊎ ((u : Tunnel) × ServeStep t u)
    at_place returned e =
        let k = ap asks_once e in inl (e, bit-one t.once (omega arith), omega arith)
    at_place blocked e = elim (Bool-cases t.once) [
      | inr g ↦ inr (inl (e, g))
      | inl g ↦
          let k = ap bit g in inr (inr (record t { place = returned }, leaves e (omega arith)))
    ]
    at_place accepting e = elim (Bool-cases t.used) [
      | inl g ↦ inr (inr (record t { place = blocked }, blocks t e (rw g)))
      | inr g ↦ inr (
          inr (
            record t { used = true; serving = suc t.serving },
            takes (record t { used = true }) e (rw g),
          ))
    ]

-- In a tunnel, the channel of notifyConn is closed at most once and at most one goroutine serves the
-- connection; and the inner server has returned after a Close of the connection has begun, or waits at
-- the channel while none has, or can take a step of its own.
pub serve_once :
    (t : Tunnel)
    → Reachable t
    → (t.channel_closes ≤ 1)
      × (t.serving ≤ 1)
      × (((t.place ≡ returned) × (t.once ≡ true) × (0 < t.closing + t.conn_closes))
          ⊎ ((t.place ≡ blocked) × (t.once ≡ false))
          ⊎ ((u : Tunnel) × ServeStep t u))
serve_once t r =
    let v = Reachable-IsValid t r in
    (bounded t.once t.channel_closes v.0, bounded' t.used t.serving v.2, ServeStep-progress t v)
  where
    bounded : (b : Bool) (n : ℕ) → n ≡ bit b → n ≤ 1
    bounded true n h = omega arith
    bounded false n h = omega arith

    bounded' : (b : Bool) (n : ℕ) → n ≤ bit b → n ≤ 1
    bounded' true n h = omega arith
    bounded' false n h = omega arith
