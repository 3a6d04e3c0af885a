-- ===== src/Simulator/Running.antt =====
-- internal/simulator/simulator.go. `fmt.Sprintf("%s-%d", …)` is an argument. What `Run`
-- prints at its end is left out.
use sentinelstream.Prelude.{
  ℕ, zero, suc, ◌+◌, ◌*◌, ◌/◌, ◌%◌, ◌==◌, Bool, Option, none, some, List, [], ◌∷◌, ◌++◌, String,
  str_eq, ℤ, pos, negsuc, pos_part, sub_ℕ, if◌then◌else◌, length, get_elem?, set,
}
use sentinelstream.Clock.{Time, Duration}
use sentinelstream.Protocol.Types.{TelemetryMessage}
use sentinelstream.Simulator.Random.{Random, Marshaller}
use sentinelstream.Simulator.Sensors.{
  new_gps_sensor, new_drone_sensor, new_vehicle_sensor, new_temperature_sensor,
}
use sentinelstream.Simulator.Generators.{Generator, gps, drone, vehicle, temperature, next}

pub record SimulatorConfig : Type 0 where
  pub number_of_sensors : ℤ
  pub message_rate_hz : ℤ
  pub sensor_types : List String

-- `generator_index` and `total_sent` are the variables of `Run`.
pub record Simulator (S : Type 0) : Type 0 where
  pub config : SimulatorConfig
  pub generators : List (Generator S)
  pub generator_index : ℕ
  pub total_sent : ℕ

abbrev pub default_types : List String
default_types = "gps" ∷ "drone" ∷ "vehicle" ∷ "temperature" ∷ []

-- What the loops carry: `sensorIndex`, the generators so far, and the shared source.
pub record Building (S : Type 0) : Type 0 where
  pub sensor_index : ℕ
  pub built : List (Generator S)
  pub source : S

-- `sim.generators = append(sim.generators, gen); sensorIndex++`
abbrev pub extend : {S : Type 0} → Option (Generator S × S) → Building S → Building S
extend none b = b
extend (some (g, s)) b = record {
  sensor_index = b.sensor_index + 1;
  built = b.built ++ g ∷ [];
  source = s;
}

module _ {S : Type 0} (rand : Random S) (sprintf : String → ℕ → String) where
  -- The switch on the sensor type; `none` is `continue`.
  unfoldable pub new_sensor : String → String → ℤ → S → Option (Generator S × S)
  new_sensor sensor_type id seed s =
      if str_eq sensor_type "gps"
      then some (let (g, s') = new_gps_sensor rand id seed s in (gps g, s'))
      else if str_eq sensor_type "drone"
      then some (let (g, s') = new_drone_sensor rand id seed s in (drone g, s'))
      else if str_eq sensor_type "vehicle"
      then some (let (g, s') = new_vehicle_sensor rand id seed s in (vehicle g, s'))
      else if str_eq sensor_type "temperature"
      then some (let (g, s') = new_temperature_sensor rand id seed s in (temperature g, s'))
      else none

  -- The inner loop, `left` rounds from `i` on.
  unfoldable pub add_sensors : String → ℕ → ℕ → Building S → Building S
  add_sensors sensor_type zero i b = b
  add_sensors sensor_type (suc left) i b =
      let id = sprintf sensor_type i in
      let seed = pos (b.sensor_index * 1000 + i) in
      add_sensors sensor_type left (i + 1) (extend (new_sensor sensor_type id seed b.source) b)

  -- The outer loop.
  unfoldable pub add_types : ℕ → List String → Building S → Building S
  add_types n [] b = b
  add_types n (t ∷ types) b = add_types n types (add_sensors t n 0 b)

  -- The default types are set in the constructor's own copy of the configuration.
  unfoldable pub new_simulator : SimulatorConfig → S → Simulator S
  new_simulator config s =
      let types = if length config.sensor_types == 0 then default_types else config.sensor_types in
      let b =
        add_types (pos_part config.number_of_sensors) types
          (record { sensor_index = 0; built = []; source = s }) in
      record { config = config; generators = b.built; generator_index = 0; total_sent = 0 }

-- `SensorCount`
abbrev pub sensor_count : {S : Type 0} → Simulator S → ℕ
sensor_count sim = length sim.generators

-- What `Run` does before its loop.
pub data Launch : Type 0 where
  no_sensors : Launch
  divides_by_zero : Launch
  bad_interval : Duration → Launch
  ticks_every : Duration → Launch

-- `1000 / rate`, towards 0, in milliseconds; `time.NewTicker` panics unless it is positive.
unfoldable pub interval : ℤ → Launch
interval (pos n) =
    if n == 0
    then divides_by_zero
    else if 1000 / n == 0
    then bad_interval (pos 0)
    else ticks_every (pos (1000 / n * 1000000))
interval (negsuc n) = bad_interval (sub_ℕ 0 (1000 / (n + 1) * 1000000))

unfoldable pub launch : {S : Type 0} → Simulator S → Launch
unfolding interval
launch sim = if length sim.generators == 0 then no_sensors else interval sim.config.message_rate_hz

-- What a select of the loop finds: the context done, or a tick, with the reading of the clock in
-- `Next` and whether the inner select sends the message or finds the context done.
pub data Event : Type 0 where
  done : Event
  ticks : Time → Bool → Event

-- Where the loop is: before its next select, behind `return ctx.Err()`, or at an index out of range.
pub data Running (S : Type 0) : Type 0 where
  going : Simulator S → Running S
  cancelled : Simulator S → Running S
  crashed : Running S

-- The messages sent, and where the loop is.
abbrev pub Sending : Type 0 → Type 0
Sending S = List TelemetryMessage × Running S

abbrev pub then_run : {S : Type 0} → Sending S → (Simulator S → Sending S) → Sending S
then_run (msgs, going sim) f = let (more, r) = f sim in (msgs ++ more, r)
then_run (msgs, cancelled sim) f = (msgs, cancelled sim)
then_run (msgs, crashed) f = (msgs, crashed)

module _ {S : Type 0} (rand : Random S) (marshal : Marshaller) where
  -- One round of the loop of `Run`.
  unfoldable pub turn : Event → Simulator S → Sending S
  turn done sim = ([], cancelled sim)
  turn (ticks now sent) sim = elim (get_elem? sim.generators sim.generator_index) [
    | none ↦ ([], crashed)
    | some g ↦
        let (msg, g') = next rand marshal now g in
        let moved = record sim {
          generators = set sim.generators sim.generator_index g';
          total_sent = sim.total_sent + 1;
        } in
        if sent
        then (
          msg ∷ [],
          going (record moved {
            generator_index = (sim.generator_index + 1) % length sim.generators;
          }),
        )
        else ([], cancelled moved)
  ]

  unfoldable pub run : List Event → Simulator S → Sending S
  run [] sim = ([], going sim)
  run (e ∷ events) sim = then_run (turn e sim) (run events)
