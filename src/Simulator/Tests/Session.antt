-- ===== src/Simulator/Tests/Session.antt =====
-- A run of the command with one sensor of temperature.
use sentinelstream.Prelude.{
  ℕ, ◌≡◌, refl, true, false, List, [], ◌∷◌, String, Result, ok, arith, pos, none, send, make,
  Channel, returns,
}
use sentinelstream.Simulator.Tests.Format.{rand, marshal}
use sentinelstream.Simulator.Tests.Format
use sentinelstream.Protocol.Types.{TelemetryMessage}
use sentinelstream.Simulator.Sensors.{new_temperature_sensor, move_temperature}
use sentinelstream.Simulator.Generators.{next, next_temperature}
use sentinelstream.Simulator.Running.{
  Simulator, Running, going, cancelled, crashed, ticks, ticks_every, interval, new_simulator,
  new_sensor, add_sensors, add_types, launch, turn,
}
use sentinelstream.Simulator.Sender.{new_sender}
use sentinelstream.Simulator.Flags.{is_space, sensor_types}
use sentinelstream.Simulator.Flags.Written.{
  Padded, IsPadded, all_chars, written, sensor_types-written,
}
use sentinelstream.Simulator.Command.{
  Readings, Flags, Command, config_of, datagrams, begin, start_command, open_wire,
}
use sentinelstream.Simulator.Command.Steps.{
  Reach, here, next as then, launch_well, produce, receive, interrupt,
}
use sentinelstream.Simulator.Command.Invariant.{command_invariant}
use sentinelstream.Simulator.Command.States.{Inv}

abbrev sprintf : String → ℕ → String
sprintf sensor_type i = sensor_type

abbrev dial : String → String → Result String (Unit {0})
dial network target = ok tt

abbrev flags : Flags
flags = record {
  sensors = pos 1;
  rate = pos 10;
  types = " temperature";
  verbose = true;
  protocol_name = "udp";
  target = "host:9000";
}

abbrev sim : Simulator ℕ
sim = new_simulator rand sprintf (config_of flags) 0

abbrev opening : Command ℕ
opening = begin sim (datagrams []) (pos 7)

opened : start_command rand sprintf dial flags 0 (pos 7) ≡ ok opening
unfolding start_command open_wire new_sender
opened = refl

temperature : sensor_types " temperature" ≡ "temperature" ∷ []
unfolding sensor_types is_space
temperature = refl

launched : launch sim ≡ ticks_every (pos 100000000)
unfolding launch interval new_simulator add_types add_sensors new_sensor sensor_types is_space
launched = refl

abbrev after : Running ℕ → Simulator ℕ
after (going s) = s
after (cancelled s) = s
after crashed = sim

abbrev turned : List TelemetryMessage × Running ℕ
turned = turn rand marshal (ticks (pos 9) true) sim

abbrev message : TelemetryMessage
message = elim turned.0 [ [] ↦ Format.message | msg ∷ msgs ↦ msg ]

turned_well : turned ≡ (message ∷ [], going (after turned.1))
unfolding turn next next_temperature new_temperature_sensor move_temperature new_simulator add_types
    add_sensors new_sensor sensor_types is_space
turned_well = refl

abbrev filled : Channel TelemetryMessage
filled = record { capacity = 100; buffer = message ∷ []; closed = false }

sent : send message (make 100) ≡ returns filled
unfolding send
sent = refl

abbrev at : Readings
at = record { tested = pos 6000000000; measured = pos 6000000000; noted = pos 6000000001 }

working_session : (d : Command ℕ) × Reach rand marshal true opening d
working_session = (
  _,
  then
      (then
        (then (then here (launch_well sim (pos 100000000) refl refl refl launched))
          (produce sim (after turned.1) (pos 9) message filled refl refl refl turned_well sent))
        (receive none at message [] refl refl refl (omega arith)))
      (interrupt (pos 6000000002) refl refl),
)

command_invariant_example : Inv rand marshal sim (datagrams []) working_session.0
unfolding new_simulator
command_invariant_example =
    command_invariant rand marshal sprintf dial flags 0 (pos 7) opened working_session.1

abbrev padded : Padded
padded = record { before = " "; word = "gps"; behind = "" }

padded-IsPadded : IsPadded padded
unfolding all_chars is_space
padded-IsPadded = record { blank_before = refl; no_blank = refl; blank_behind = refl }

sensor_types-written_example : sensor_types (written padded (padded ∷ [])) ≡ "gps" ∷ "gps" ∷ []
sensor_types-written_example =
    sensor_types-written padded (padded ∷ []) padded-IsPadded (padded-IsPadded, tt)
