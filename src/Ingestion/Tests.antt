-- ===== src/Ingestion/Tests.antt =====
-- A listener with room for one message, and datagrams for it.
mod Datagrams
use sentinelstream.Prelude.{
  ℕ, ◌≡◌, ◌<◌, ◌↔◌, refl, true, false, List, [], ◌∷◌, ◌++◌, ◌==◌, ok, err, pos, length, returns,
  if◌then◌else◌, arith,
}
use sentinelstream.Clock.{add_duration}
use sentinelstream.Protocol.Types.{TelemetryMessage}
use sentinelstream.Protocol.Parser.{Codec, parse_telemetry_message}
use sentinelstream.Protocol.Validation.{validate_telemetry_message}
use sentinelstream.Ingestion.Udp.{
  UdpListener, goes_on, waits, leaves, new_udp_listener, start, stop, receive_round,
}
use sentinelstream.Ingestion.Reading.{
  Item, IsOpen, Has, all_messages, all_errors, refusals, receive_all,
}
use sentinelstream.Ingestion.Receiving.{listening, receive_all-Has, receive_all_waits, stop_ends}
use sentinelstream.Ingestion.Tcp.{
  new_tcp_listener, open_connection, handle_line, note_parsed, reading, sending,
}
use sentinelstream.Ingestion.Tcp
use sentinelstream.Ingestion.Connections.{
  swept, ended, here, next, arrive, register, count, launch, line,
}
use sentinelstream.Ingestion.Connections
use sentinelstream.Ingestion.Connections.States.{Inv}
use sentinelstream.Ingestion.Connections.Invariant.{started, connections_invariant}
use sentinelstream.Ingestion.Connections.Shutdown.{stop_may_miss}
use sentinelstream.Ingestion.Rates.{accept_rate}
use sentinelstream.Ingestion.Rates.Bounds.{accept_rate_bounds}
use sentinelstream.Float.{units, scale, whole, Between}
use sentinelstream.Float.Arith.{mul_float, div_float, of_whole}

abbrev message : TelemetryMessage
message = record {
  sensor_id = "gps-1";
  sensor_type = "gps";
  sequence = 7;
  timestamp = pos 400;
  payload = 123 ∷ 125 ∷ [];
}

-- A decoder that knows one text.
abbrev codec : Codec
codec = record {
  telemetry_message =
      λ bytes. if length bytes == 2 then ok message else err "unexpected end of JSON input";
  gps_data = λ bytes. err "unexpected end of JSON input";
  drone_data = λ bytes. err "unexpected end of JSON input";
  radar_data = λ bytes. err "unexpected end of JSON input";
  temperature_sensor_data = λ bytes. err "unexpected end of JSON input";
  pressure_sensor_data = λ bytes. err "unexpected end of JSON input";
  vibration_sensor_data = λ bytes. err "unexpected end of JSON input";
  vehicle_data = λ bytes. err "unexpected end of JSON input";
  asset_tracker_data = λ bytes. err "unexpected end of JSON input";
  power_grid_data = λ bytes. err "unexpected end of JSON input";
  weather_station_data = λ bytes. err "unexpected end of JSON input";
  patient_vitals_data = λ bytes. err "unexpected end of JSON input";
  medical_device_data = λ bytes. err "unexpected end of JSON input";
}

abbrev datagram : List ℕ → Item
datagram bytes = (
  record { parsed = pos 390; noted = pos 391 },
  record { remote_addr = "10.0.0.1:5000"; content = ok bytes },
)

abbrev good : Item
good = datagram (123 ∷ 125 ∷ [])

abbrev bad : Item
bad = datagram (123 ∷ [])

abbrev listener : UdpListener
listener = listening (pos 9000) 1

listener-IsOpen : IsOpen listener
unfolding start new_udp_listener
listener-IsOpen = record {
  running = refl;
  unstopped = refl;
  open_messages = refl;
  open_errors = refl;
}

receive_all-Has_example :
    (l : UdpListener) × (receive_all codec (good ∷ bad ∷ []) listener ≡ goes_on l)
    × Has
        (all_messages codec (good ∷ bad ∷ []))
        (all_errors codec (good ∷ bad ∷ []))
        (refusals codec (good ∷ bad ∷ []))
        listener
        l
unfolding start new_udp_listener all_messages all_errors parse_telemetry_message
    validate_telemetry_message add_duration
receive_all-Has_example =
    receive_all-Has codec (good ∷ bad ∷ []) listener listener-IsOpen (omega arith) (omega arith)

abbrev ten_bad : List Item
ten_bad = bad ∷ bad ∷ bad ∷ bad ∷ bad ∷ bad ∷ bad ∷ bad ∷ bad ∷ bad ∷ []

receive_all_waits_example :
    (l : UdpListener) × (receive_all codec (ten_bad ++ bad ∷ good ∷ []) listener ≡ waits l)
    × (l.messages.buffer ≡ all_messages codec ten_bad)
unfolding all_messages all_errors parse_telemetry_message
receive_all_waits_example =
    receive_all_waits codec (pos 9000) 1 ten_bad bad (good ∷ []) (omega arith) refl (omega arith)

-- A connection arrives, is registered, and its handler reads a message.
abbrev busy : Connections.System
busy =
    let idle = started (pos 9001) 1 in
    let l = open_connection 0 idle.listener in
    record idle {
      listener = record l { messages_received = 1 };
      handlers = (0, sending message) ∷ [];
      next_conn = 1;
    }

registered_first : Connections.Reach codec (started (pos 9001) 1) (record (started (pos 9001) 1) {
  listener = open_connection 0 (started (pos 9001) 1).listener;
  handlers = (0, reading) ∷ [];
  next_conn = 1;
})
unfolding started Tcp.start new_tcp_listener open_connection
registered_first =
    next
      (next (next (next here (arrive refl refl refl)) (register 0 refl refl)) (count 0 refl refl))
      (launch 0 refl refl)

busy-Reach : Connections.Reach codec (started (pos 9001) 1) busy
unfolding started Tcp.start new_tcp_listener open_connection handle_line note_parsed
    parse_telemetry_message validate_telemetry_message add_duration
busy-Reach = next registered_first (
    line (record { parsed = pos 390; noted = pos 391 }) "10.0.0.1:5000" (123 ∷ 125 ∷ []) 0 [] [] _ _
      refl refl refl)

connections_invariant_example : Inv 1 busy
connections_invariant_example = connections_invariant codec (pos 9001) 1 busy-Reach

stop_may_miss_example :
    (t : Connections.System) × Connections.Reach codec (started (pos 9001) 1) t
    × (t.crashed ≡ false)
    × (t.stopping ≡ swept)
    × (t.accepting ≡ ended)
    × (t.closed ≡ [])
    × (t.handlers ≡ (0, reading) ∷ [])
stop_may_miss_example = stop_may_miss codec (pos 9001) 1

accept_rate_bounds_example :
    Between (pos 0) (pos 100) (accept_rate 3 1)
    × ((accept_rate 3 1 ≡ whole (pos 100)) ↔ ((0 < 3) × (◌≡◌ {A = ℕ} 1 0)))
accept_rate_bounds_example = accept_rate_bounds 3 1 (omega arith)
