-- ===== src/Tests/Concurrency.antt =====
-- Tests of the goroutines: Serve's end, the tunnel's server, and relay.
use cc_mysub.Base.{
  inr, Bytes, codes, true, false, ◌+◌, ◌≤◌, ◌<◌, [], ◌++◌, ◌≡◌, ◌≢◌, ◌⊎◌, refl, arith,
}
use cc_mysub.Proxy.Serve.{
  Server, new_server, accept_conn, accept_error, release, accepts, fails, ends,
}
use cc_mysub.Proxy.Serve
use cc_mysub.Proxy.Serve.Shutdown.{Run, steps_left, closed_ends}
use cc_mysub.Proxy.Serve.Shutdown
use cc_mysub.Proxy.Tunnel.{
  Tunnel, new_tunnel, begin_close, ServeStep, accept, takes, serves, begins_close,
}
use cc_mysub.Proxy.Tunnel
use cc_mysub.Proxy.Tunnel.Once.{serve_once}
use cc_mysub.Splitter.Relay.{
  Relay, start_relay, end_ab, Own, own, reads_a, writes_b, breaks_ab, hears_first, closing_a,
}
use cc_mysub.Splitter.Relay
use cc_mysub.Splitter.Relay.Copies.{relay_complete}
use cc_mysub.Splitter.Relay.Ends.{OwnRun, own_left, relay_ends}
use cc_mysub.Splitter.Relay.Ends

abbrev one : Server
one = accept_conn (new_server 1) 7

abbrev closing : Server
closing = accept_error one

closing-Reachable : Serve.Reachable 1 closing
unfolding accept_conn
closing-Reachable =
    Serve.step one closing (Serve.step (new_server 1) one Serve.start (accepts 7 refl)) (fails refl)

abbrev freed : Server
freed = release closing [] 7 []

freed-Run : Run closing 1 freed
unfolding accept_conn accept_error
freed-Run = Shutdown.next 0 closing freed Shutdown.here (ends [] [] 7 refl)

closed_ends_example :
    (1 ≤ steps_left closing) × ((freed.has_returned ≡ true) ⊎ ((u : Server) × Serve.Step freed u))
unfolding accept_error
closed_ends_example = closed_ends 1 closing 1 freed closing-Reachable refl freed-Run

abbrev handed : Tunnel
handed = record new_tunnel { used = true; serving = 1 }

abbrev shut : Tunnel
shut = begin_close handed

shut-Reachable : Tunnel.Reachable shut
unfolding accept
shut-Reachable =
    Tunnel.step handed shut
      (Tunnel.step new_tunnel handed Tunnel.start
        (serves handed (takes (record new_tunnel { used = true }) refl refl)))
      (begins_close (omega arith))

serve_once_example :
    (shut.channel_closes ≤ 1)
    × (shut.serving ≤ 1)
    × (((shut.place ≡ Tunnel.returned) × (shut.once ≡ true) × (0 < shut.closing + shut.conn_closes))
        ⊎ ((shut.place ≡ Tunnel.blocked) × (shut.once ≡ false))
        ⊎ ((u : Tunnel) × ServeStep shut u))
serve_once_example = serve_once shut shut-Reachable

abbrev ask : Bytes
ask = codes "ab"

abbrev reply : Bytes
reply = codes "xyz"

-- "a" was read, then "b"; the write of "b" failed.
abbrev got_one : Relay
got_one = record (start_relay ask reply) { from_a = codes "b"; chunk_ab = codes "a" }

abbrev gave_one : Relay
gave_one = record got_one { to_b = codes "a"; chunk_ab = [] }

abbrev got_two : Relay
got_two = record gave_one { from_a = []; chunk_ab = codes "b" }

abbrev ended : Relay
ended = end_ab got_two

ended-Reachable : Relay.Reachable ask reply ended
ended-Reachable =
    Relay.step got_two ended
      (Relay.step gave_one got_two
        (Relay.step got_one gave_one
          (Relay.step (start_relay ask reply) got_one Relay.start
            (reads_a (codes "a") (codes "b") refl refl refl))
          (writes_b refl refl))
        (reads_a (codes "b") [] refl refl refl))
      (breaks_ab [] (codes "b") refl (inr refl) refl)

relay_complete_example :
    (ended.to_b ++ (ended.chunk_ab ++ ended.from_a) ≡ ask)
    × (ended.to_a ++ (ended.chunk_ba ++ ended.from_b) ≡ reply)
    × ((ended.eof_ab ≡ false) ⊎ (ended.to_b ≡ ask))
    × ((ended.eof_ba ≡ false) ⊎ (ended.to_a ≡ reply))
    × ((ended.phase ≢ Relay.returned)
        ⊎ ((ended.copies_ab ≡ false)
            × (ended.copies_ba ≡ false)
            × (ended.a_open ≡ false)
            × (ended.b_open ≡ false)
            × (ended.done ≡ 0)))
relay_complete_example = relay_complete ask reply ended ended-Reachable

abbrev heard : Relay
heard = record ended { done = 0; phase = closing_a }

heard-OwnRun : OwnRun ended 1 heard
heard-OwnRun = Ends.next 0 ended heard Ends.here (hears_first refl (omega arith))

relay_ends_example :
    (1 + own_left heard ≡ own_left ended)
    × (own_left ended ≤ 5)
    × ((heard.phase ≡ Relay.returned) ⊎ ((u : Relay) × Own heard u))
relay_ends_example = relay_ends ask reply ended 1 heard ended-Reachable refl heard-OwnRun
