-- ===== src/Simulator/Moving.antt =====
-- A generator's `Next` in two parts: it moves the sensor on, and sends what the sensor then has.
use sentinelstream.Prelude.{ℕ, ◌≡◌, refl, List, String, Result}
use sentinelstream.Clock.{Time}
use sentinelstream.Protocol.Types.{TelemetryMessage}
use sentinelstream.Simulator.Random.{Random, Marshaller, ignore_error}
use sentinelstream.Simulator.Sensors.{move_gps, move_drone, move_vehicle, move_temperature}
use sentinelstream.Simulator.Generators.{
  Generator, gps, drone, vehicle, temperature, gps_data, drone_data, vehicle_data, temperature_data,
  id_of, type_of, sequence_of, next, next_gps, next_drone, next_vehicle, next_temperature,
}

-- What `Next` leaves of a generator.
abbrev pub move : {S : Type 0} → Random S → Generator S → Generator S
move rand (gps g) = gps (move_gps rand g)
move rand (drone g) = drone (move_drone rand g)
move rand (vehicle g) = vehicle (move_vehicle rand g)
move rand (temperature g) = temperature (move_temperature rand g)

-- The data of the generator, marshalled.
abbrev pub marshalled : {S : Type 0} → Marshaller → Generator S → Result String (List ℕ)
marshalled marshal (gps g) = marshal.gps_data (gps_data g)
marshalled marshal (drone g) = marshal.drone_data (drone_data g)
marshalled marshal (vehicle g) = marshal.vehicle_data (vehicle_data g)
marshalled marshal (temperature g) = marshal.temperature_sensor_data (temperature_data g)

-- The message of a generator that has moved.
abbrev pub message_of :
    {S : Type 0} → Time → Result String (List ℕ) → Generator S → TelemetryMessage
message_of now payload g = record {
  sensor_id = id_of g;
  sensor_type = type_of g;
  sequence = sequence_of g;
  timestamp = now;
  payload = ignore_error payload;
}

-- `Next` moves the sensor on and sends the data that it then has.
pub next-move :
    {S : Type 0} (rand : Random S) (marshal : Marshaller) (now : Time) (g : Generator S)
    → next rand marshal now g
      ≡ (message_of now (marshalled marshal (move rand g)) (move rand g), move rand g)
unfolding next next_gps next_drone next_vehicle next_temperature
next-move rand marshal now (gps g) = refl
next-move rand marshal now (drone g) = refl
next-move rand marshal now (vehicle g) = refl
next-move rand marshal now (temperature g) = refl
