-- ===== src/Proxy/Tunnel.antt =====
-- notifyConn and oneConnListener of internal/proxy/forward.go, under http.Server.Serve: one goroutine
-- that accepts until an error, and one for each connection that it is given, which closes the
-- connection, perhaps several times, before it ends.
pub mod Once
use cc_mysub.Base.{ℕ, suc, ◌-◌, ◌<◌, Bool, true, false, not, if◌then◌else◌, ◌≡◌}

-- Where Serve is: about to call Accept, at `<-l.closed` inside it, and behind the io.EOF.
pub data Place : Type 0 where
  accepting blocked returned : Place

-- oneConnListener.used, notifyConn.once, how often close(closed) has run, how many calls
-- of Close are between it and the TLS connection's Close, how many are behind that, and how many
-- goroutines serve the connection.
pub record Tunnel : Type 0 where
  pub used : Bool
  pub once : Bool
  pub channel_closes : ℕ
  pub closing : ℕ
  pub conn_closes : ℕ
  pub serving : ℕ
  pub place : Place

pub data Accepted : Type 0 where
  conn waits : Accepted

abbrev pub new_tunnel : Tunnel
new_tunnel = record {
  used = false;
  once = false;
  channel_closes = 0;
  closing = 0;
  conn_closes = 0;
  serving = 0;
  place = accepting;
}

-- oneConnListener.Accept: the connection, or the wait for its end.
unfoldable pub accept : Tunnel → Tunnel × Accepted
accept t = if not t.used then (record t { used = true }, conn) else (t, waits)

-- The function that Close gives to once.Do.
abbrev pub close_channel : Tunnel → Tunnel
close_channel t = record t { once = true; channel_closes = suc t.channel_closes }

-- notifyConn.Close up to c.Conn.Close, and that call.
unfoldable pub begin_close : Tunnel → Tunnel
begin_close t =
    let u = (if t.once then t else close_channel t) in record u { closing = suc u.closing }

abbrev pub finish_close : Tunnel → Tunnel
finish_close t = record t { closing = t.closing - 1; conn_closes = suc t.conn_closes }

-- The steps of Serve's own goroutine. A receive from `closed` waits until it is closed.
pub data ServeStep (t : Tunnel) : Tunnel → Type 0 where
  takes :
      (u : Tunnel)
      → t.place ≡ accepting
      → accept t ≡ (u, conn)
      → ServeStep t (record u { serving = suc u.serving })
  blocks :
      (u : Tunnel)
      → t.place ≡ accepting
      → accept t ≡ (u, waits)
      → ServeStep t (record u { place = blocked })
  leaves : t.place ≡ blocked → 0 < t.channel_closes → ServeStep t (record t { place = returned })

-- And those of the goroutine that serves the connection.
pub data Step (t : Tunnel) : Tunnel → Type 0 where
  serves : (u : Tunnel) → ServeStep t u → Step t u
  begins_close : 0 < t.serving → Step t (begin_close t)
  closes : 0 < t.closing → Step t (finish_close t)
  ends : 0 < t.serving → 0 < t.conn_closes → Step t (record t { serving = t.serving - 1 })

pub data Reachable : Tunnel → Type 0 where
  start : Reachable new_tunnel
  step : (t u : Tunnel) → Reachable t → Step t u → Reachable u
