-- ===== src/Splitter/Relay.antt =====
-- relay of internal/splitter/splitter.go: two goroutines copy between the connections a and b, and the
-- caller waits for one of them, closes both connections, and waits for the other.
pub mod Copies
pub mod Ends
use cc_mysub.Base.{ℕ, suc, ◌-◌, ◌<◌, Bytes, Bool, true, false, ◌++◌, [], ◌≡◌, ◌⊎◌}

-- Where the caller is: before `<-done`, a.Close(), b.Close(), the second `<-done`, and behind it.
pub data Phase : Type 0 where
  waiting closing_a closing_b joining returned : Phase

-- What the buffered readers have yet to give, the chunk that each io.Copy has read and not written, what
-- was written, which goroutines still copy, which of them came to the end of their input, how many
-- values the channel holds, and which connections are open.
pub record Relay : Type 0 where
  pub from_a : Bytes
  pub from_b : Bytes
  pub chunk_ab : Bytes
  pub chunk_ba : Bytes
  pub to_a : Bytes
  pub to_b : Bytes
  pub copies_ab : Bool
  pub copies_ba : Bool
  pub eof_ab : Bool
  pub eof_ba : Bool
  pub done : ℕ
  pub a_open : Bool
  pub b_open : Bool
  pub phase : Phase

abbrev pub start_relay : Bytes → Bytes → Relay
start_relay a b = record {
  from_a = a;
  from_b = b;
  chunk_ab = [];
  chunk_ba = [];
  to_a = [];
  to_b = [];
  copies_ab = true;
  copies_ba = true;
  eof_ab = false;
  eof_ba = false;
  done = 0;
  a_open = true;
  b_open = true;
  phase = waiting;
}

abbrev pub end_ab : Relay → Relay
end_ab s = record s { copies_ab = false; done = suc s.done }

abbrev pub end_ba : Relay → Relay
end_ba s = record s { copies_ba = false; done = suc s.done }

-- The steps that wait for no peer: io.Copy fails on closed connections, and the caller goes on.
pub data Own (s : Relay) : Relay → Type 0 where
  fails_ab : s.copies_ab ≡ true → s.a_open ≡ false → s.b_open ≡ false → Own s (end_ab s)
  fails_ba : s.copies_ba ≡ true → s.a_open ≡ false → s.b_open ≡ false → Own s (end_ba s)
  hears_first :
      s.phase ≡ waiting → 0 < s.done → Own s (record s { done = s.done - 1; phase = closing_a })
  closes_a : s.phase ≡ closing_a → Own s (record s { a_open = false; phase = closing_b })
  closes_b : s.phase ≡ closing_b → Own s (record s { b_open = false; phase = joining })
  hears_second :
      s.phase ≡ joining → 0 < s.done → Own s (record s { done = s.done - 1; phase = returned })

-- io.Copy reads a chunk, also one that was buffered before the connection was closed, and writes it
-- while the other connection is open. It ends at the end of its input, or at an error: behind a read
-- that fails, or a write that fails with a part of the chunk written, which on a closed connection is
-- none; what is left of the chunk is then lost.
pub data Step (s : Relay) : Relay → Type 0 where
  own : (t : Relay) → Own s t → Step s t
  reads_a :
      (chunk rest : Bytes)
      → s.copies_ab ≡ true
      → s.chunk_ab ≡ []
      → s.from_a ≡ chunk ++ rest
      → Step s (record s { from_a = rest; chunk_ab = chunk })
  reads_b :
      (chunk rest : Bytes)
      → s.copies_ba ≡ true
      → s.chunk_ba ≡ []
      → s.from_b ≡ chunk ++ rest
      → Step s (record s { from_b = rest; chunk_ba = chunk })
  writes_b :
      s.copies_ab ≡ true
      → s.b_open ≡ true
      → Step s (record s { to_b = s.to_b ++ s.chunk_ab; chunk_ab = [] })
  writes_a :
      s.copies_ba ≡ true
      → s.a_open ≡ true
      → Step s (record s { to_a = s.to_a ++ s.chunk_ba; chunk_ba = [] })
  breaks_ab :
      (part lost : Bytes)
      → s.copies_ab ≡ true
      → (s.b_open ≡ true) ⊎ (part ≡ [])
      → s.chunk_ab ≡ part ++ lost
      → Step s (end_ab (record s { to_b = s.to_b ++ part; chunk_ab = lost }))
  breaks_ba :
      (part lost : Bytes)
      → s.copies_ba ≡ true
      → (s.a_open ≡ true) ⊎ (part ≡ [])
      → s.chunk_ba ≡ part ++ lost
      → Step s (end_ba (record s { to_a = s.to_a ++ part; chunk_ba = lost }))
  finishes_ab :
      s.copies_ab ≡ true
      → s.chunk_ab ≡ []
      → s.from_a ≡ []
      → Step s (end_ab (record s { eof_ab = true }))
  finishes_ba :
      s.copies_ba ≡ true
      → s.chunk_ba ≡ []
      → s.from_b ≡ []
      → Step s (end_ba (record s { eof_ba = true }))

pub data Reachable (a b : Bytes) : Relay → Type 0 where
  start : Reachable a b (start_relay a b)
  step : (s t : Relay) → Reachable a b s → Step s t → Reachable a b t
