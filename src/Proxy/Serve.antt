-- ===== src/Proxy/Serve.antt =====
-- Serve of internal/proxy/forward.go with the deferred calls of handle: the accept loop, the global
-- semaphore and the wait group. A connection is a number; `running` are those whose handle has not
-- ended, `releasing` those that have given back their slot but not yet told the wait group.
pub mod Slots
pub mod Shutdown
use cc_mysub.Base.{
  ℕ, zero, suc, ◌+◌, ◌-◌, Bool, true, false, ltb, List, [], ◌∷◌, ◌++◌, ◌≡◌, if◌then◌else◌,
}

pub record Server : Type 0 where
  pub max_in_flight : ℕ
  pub sema : ℕ
  pub wg : ℕ
  pub running : List ℕ
  pub releasing : List ℕ
  pub shed : List ℕ
  pub is_listening : Bool
  pub has_returned : Bool

abbrev pub new_server : ℕ → Server
new_server n = record {
  max_in_flight = n;
  sema = 0;
  wg = 0;
  running = [];
  releasing = [];
  shed = [];
  is_listening = true;
  has_returned = false;
}

-- One accepted connection: a free slot is taken, or the connection is closed.
unfoldable pub accept_conn : Server → ℕ → Server
accept_conn s id =
    if ltb s.sema s.max_in_flight
    then record s { sema = suc s.sema; wg = suc s.wg; running = id ∷ s.running }
    else record s { shed = id ∷ s.shed }

-- The deferred receive from the semaphore, which runs first, and the deferred wg.Done.
unfoldable pub release : Server → List ℕ → ℕ → List ℕ → Server
release s xs id ys = record s {
  sema = s.sema - 1;
  running = xs ++ ys;
  releasing = id ∷ s.releasing;
}

unfoldable pub done : Server → List ℕ → List ℕ → Server
done s xs ys = record s { wg = s.wg - 1; releasing = xs ++ ys }

unfoldable pub accept_error : Server → Server
accept_error s = record s { is_listening = false }

unfoldable pub return_error : Server → Server
return_error s = record s { has_returned = true }

-- One step of the loop or of a connection's goroutine; the wait ends when the group is empty.
pub data Step (s : Server) : Server → Type 0 where
  accepts : (id : ℕ) → s.is_listening ≡ true → Step s (accept_conn s id)
  ends : (xs ys : List ℕ) (id : ℕ) → s.running ≡ xs ++ id ∷ ys → Step s (release s xs id ys)
  leaves : (xs ys : List ℕ) (id : ℕ) → s.releasing ≡ xs ++ id ∷ ys → Step s (done s xs ys)
  fails : s.is_listening ≡ true → Step s (accept_error s)
  returns : s.is_listening ≡ false → s.wg ≡ 0 → s.has_returned ≡ false → Step s (return_error s)

-- What the loop can come to with the given limit.
pub data Reachable (n : ℕ) : Server → Type 0 where
  start : Reachable n (new_server n)
  step : (s t : Server) → Reachable n s → Step s t → Reachable n t
