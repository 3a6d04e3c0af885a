-- ===== src/Ingestion/Tests/Datagrams.antt =====
-- A run of the UDP listener: a datagram arrives, is sent and received, and the listener is stopped.
use sentinelstream.Prelude.{refl, true, ok, [], ◌∷◌, pos, send, close}
use sentinelstream.Clock.{add_duration}
use sentinelstream.Protocol.Parser.{parse_telemetry_message}
use sentinelstream.Protocol.Validation.{validate_telemetry_message}
use sentinelstream.Ingestion.Udp.{
  Readings, Received, new_udp_listener, start, stop_receiving, close_channels,
}
use sentinelstream.Ingestion.Datagrams.{
  System, check_stop, read_datagram, select_phase, sending, Reach, here, next, check, read, deliver,
  take, signal, finish,
}
use sentinelstream.Ingestion.Datagrams.States.{Inv}
use sentinelstream.Ingestion.Datagrams.Invariant.{started, datagrams_invariant}
use sentinelstream.Ingestion.Tests.{message, codec}

abbrev at : Readings
at = record { parsed = pos 390; noted = pos 391 }

abbrev got : Received
got = record { remote_addr = "10.0.0.1:5000"; content = ok (123 ∷ 125 ∷ []) }

session : (s : System) × Reach codec (started (pos 9000) 1) s
unfolding started start new_udp_listener check_stop read_datagram select_phase
    parse_telemetry_message validate_telemetry_message add_duration send stop_receiving
    close_channels close
session = (
  _,
  next
      (next
        (next
          (next
            (next
              (next (next here (check refl refl))
                (read at "10.0.0.1:5000" (ok (123 ∷ 125 ∷ [])) _ _ refl refl refl))
              (deliver true (sending message) _ refl refl refl))
            (take message [] refl refl))
          (signal _ refl refl refl refl))
        (check refl refl))
      (finish _ refl refl refl refl),
)

datagrams_invariant_example : Inv 1 session.0
datagrams_invariant_example = datagrams_invariant codec (pos 9000) 1 session.1
