-- ===== src/Simulator/Tests.antt =====
-- Simulators that run on random numbers and a text format of their own.
mod Format
mod Session
use sentinelstream.Prelude.{
  ℕ, zero, suc, ◌+◌, ◌*◌, ◌%◌, ◌≡◌, ◌↔◌, refl, sym, subst, ◌∙◌, false, none, Bool-cases, inl, inr,
  List, [], ◌∷◌, String, str_eq, str_eq_iff, Result, ok, err, ◌>>=◌, ℤ, pos, negsuc, ◌≤ℤ◌, length,
  All, arith, u64_mod, if◌then◌else◌,
}
use sentinelstream.Clock.{Time, Duration, add_duration}
use sentinelstream.Float.{Float64, nan, neg_inf, pos_inf, finite}
use sentinelstream.Float.Arith.{dyadic}
use sentinelstream.Float.Bounds.{half_in_unit}
use sentinelstream.Protocol.Types.{
  TelemetryMessage, GpsData, DroneData, VehicleData, TemperatureSensorData,
}
use sentinelstream.Protocol.Parser.{Codec}
use sentinelstream.Simulator.Random.{Random, IsRandom, Marshaller}
use sentinelstream.Simulator.Messages.{IsReadBack, Passes, next_lem, simulated-Passes}
use sentinelstream.Simulator.Generators.{Generator, drone, next}
use sentinelstream.Simulator.Generated.{IsReady}
use sentinelstream.Simulator.Running.{
  SimulatorConfig, Simulator, new_simulator, new_sensor, add_sensors, add_types, sensor_count,
  launch, interval, ticks_every, divides_by_zero, run, going,
}
use sentinelstream.Simulator.Building.{IsFresh, expected, new_simulator-IsBuilt}
use sentinelstream.Simulator.Rounds.{all_ticks, all_rounds, move_all, run-rounds}
use sentinelstream.Simulator.Launching.{launch_exact}
use sentinelstream.Simulator.Delivery.{
  IsDeliverable, tcp_send_all, handle_lines, received, delivered,
}
use sentinelstream.Simulator.Datagrams.{IsPosted, udp_send_all, arrivals, posted}
use sentinelstream.Ingestion.Udp.{UdpListener, goes_on, new_udp_listener, start}
use sentinelstream.Ingestion.Udp
use sentinelstream.Ingestion.Reading.{IsOpen, Has, receive_all}
use sentinelstream.Replay.Scanner.{scan, drop_cr}
use sentinelstream.Ingestion.Tcp.{
  TcpListener, new_tcp_listener, sending, Readings, max_tcp_line_size,
}
use sentinelstream.Protocol.Validation.{validate_telemetry_message}
use sentinelstream.Protocol.Validation.Ranges.{validate_telemetry_message-IsWellFormed}
use sentinelstream.Simulator.Tests.Format.{
  rand, rand-IsRandom, marshal, codec, codec-IsReadBack, message,
}

abbrev charged : Generator ℕ
charged = drone (record {
  id = "drone-0";
  sequence = 0;
  lat = dyadic 95 1;
  lon = dyadic 26 1;
  alt = dyadic 7 1;
  battery = pos 93;
  signal = pos 50;
  rng = 3;
})

abbrev sprintf : String → ℕ → String
sprintf sensor_type i = sensor_type

abbrev config : SimulatorConfig
config = record {
  number_of_sensors = pos 2;
  message_rate_hz = pos 600;
  sensor_types = "drone" ∷ "radar" ∷ "temperature" ∷ [];
}

abbrev sim : Simulator ℕ
sim = new_simulator rand sprintf config 7

abbrev clock : ℕ → ℕ → Time
clock round i = pos (round * 4 + i)

launch_test : launch sim ≡ ticks_every (pos 1000000)
unfolding launch interval new_simulator add_types add_sensors new_sensor
launch_test = refl

no_rate_test : interval (pos 0) ≡ divides_by_zero
unfolding interval
no_rate_test = refl

run-rounds_example : run rand marshal (all_ticks 2 clock (length sim.generators)) sim ≡ (
  all_rounds rand marshal 2 clock sim.generators,
  going (record sim {
    generators = move_all rand 2 sim.generators;
    total_sent = sim.total_sent + 2 * length sim.generators;
  }),
)
unfolding new_simulator
run-rounds_example = run-rounds rand marshal 2 clock sim refl

simulated-Passes_example :
    let msgs = (run rand marshal (all_ticks 2 clock (sensor_count sim)) sim).0 in
    (length msgs ≡ 2 * sensor_count sim) × All (Passes codec) msgs
simulated-Passes_example =
    simulated-Passes codec marshal codec-IsReadBack rand rand-IsRandom sprintf config 7 2 clock

launch_exact_example :
    (((d : Duration) × (launch sim ≡ ticks_every d)) ↔ ((pos 1 ≤ℤ pos 600) × (pos 600 ≤ℤ pos 1000)))
    × ((launch sim ≡ ticks_every (pos 1000000)) ↔ ((pos 501 ≤ℤ pos 600) × (pos 600 ≤ℤ pos 1000)))
unfolding new_simulator add_types add_sensors new_sensor
launch_exact_example = launch_exact sim (omega arith)

message-IsDeliverable : IsDeliverable codec marshal (pos 390) message
unfolding drop_cr validate_telemetry_message add_duration
message-IsDeliverable = record {
  bytes = 123 ∷ 125 ∷ [];
  marshalled = refl;
  line = record {
    no_newline = (ground arith, (ground arith, tt));
    no_return = refl;
    short = omega arith;
  };
  not_empty = omega arith;
  read_back = refl;
  well_formed = (validate_telemetry_message-IsWellFormed (pos 390) message).0 refl;
}

abbrev two : List TelemetryMessage
two = message ∷ message ∷ []

abbrev at : Readings
at = record { parsed = pos 390; noted = pos 391 }

abbrev listener : TcpListener
listener = new_tcp_listener (pos 9001) 4

delivered_example :
    let (lines, stopped) = scan max_tcp_line_size (tcp_send_all marshal two []) in
    (stopped ≡ false)
    × ((n : ℕ) × (handle_lines codec at "10.0.0.1:5000" lines listener
          ≡ (sending message ∷ sending message ∷ [], received n listener))
        × (n % u64_mod ≡ (listener.messages_received + 2) % u64_mod))
delivered_example =
    delivered codec marshal at "10.0.0.1:5000" two listener
      (message-IsDeliverable, (message-IsDeliverable, tt))

message-IsPosted : IsPosted codec marshal (pos 390) message
message-IsPosted = record {
  bytes = 123 ∷ 125 ∷ [];
  marshalled = refl;
  not_empty = omega arith;
  fits = omega arith;
  read_back = refl;
  well_formed = message-IsDeliverable.well_formed;
}

abbrev open_listener : UdpListener
open_listener = (start none (new_udp_listener (pos 9000) 4)).0

open_listener-IsOpen : IsOpen open_listener
unfolding start new_udp_listener
open_listener-IsOpen = record {
  running = refl;
  unstopped = refl;
  open_messages = refl;
  open_errors = refl;
}

abbrev reading_times : Udp.Readings
reading_times = record { parsed = pos 390; noted = pos 391 }

posted_example :
    (l' : UdpListener) × (receive_all codec
        (arrivals reading_times "10.0.0.1:5000" (udp_send_all marshal two []))
        open_listener
      ≡ goes_on l')
    × Has two [] 0 open_listener l'
unfolding start new_udp_listener
posted_example =
    posted codec marshal reading_times "10.0.0.1:5000" two open_listener
      (message-IsPosted, (message-IsPosted, tt)) open_listener-IsOpen (omega arith) (omega arith)
