-- ===== src/Ingestion/Connections/Shutdown.antt =====
-- `Stop` of the TCP listener and a connection that comes at the same time.
use sentinelstream.Prelude.{ℕ, ◌≡◌, refl, true, false, [], ◌∷◌, ℤ, pos}
use sentinelstream.Protocol.Parser.{Codec}
use sentinelstream.Ingestion.Tcp.{
  reading, new_tcp_listener, start, open_connection, fail_accept, stop_mark, stop_signal,
}
use sentinelstream.Ingestion.Connections.{
  System, ended, swept, Reach, here, next, arrive, register, count, launch, fail_end, mark, signal,
  deafen, sweep,
}
use sentinelstream.Ingestion.Connections.Invariant.{started}

-- A started TCP listener may accept a connection that `Stop` does not close: there is a run in which
-- `Stop` has closed the connections that it knows, none, and only waits, the accept loop has ended,
-- and a handler reads from a connection that was registered after that.
pub stop_may_miss :
    (codec : Codec) (port : ℤ) (size : ℕ)
    → (t : System) × Reach codec (started port size) t
      × (t.crashed ≡ false)
      × (t.stopping ≡ swept)
      × (t.accepting ≡ ended)
      × (t.closed ≡ [])
      × (t.handlers ≡ (0, reading) ∷ [])
unfolding started start new_tcp_listener open_connection fail_accept stop_mark stop_signal
stop_may_miss codec port size =
    let s = started port size in
    let l = record (stop_mark s.listener) { stop_closed = true } in
    let arrived_first = next here (arrive refl refl refl) in
    let stopping =
      next
        (next (next (next arrived_first (mark refl refl refl)) (signal l refl refl refl))
          (deafen refl refl))
        (sweep refl refl) in
    (
      _,
      next
          (next (next (next stopping (register 0 refl refl)) (count 0 refl refl))
            (launch 0 refl refl))
          (fail_end (pos 0) "use of closed network connection" (open_connection 0 l) refl refl
            refl),
      refl,
      refl,
      refl,
      refl,
      refl,
    )
