-- ===== src/Simulator/Generators.antt =====
-- internal/simulator/generator.go: what `Next` sends, and the interface `SensorGenerator`.
use sentinelstream.Prelude.{ℕ, String}
use sentinelstream.Clock.{Time}
use sentinelstream.Protocol.Types.{
  TelemetryMessage, GpsData, DroneData, VehicleData, TemperatureSensorData,
}
use sentinelstream.Simulator.Random.{Random, Marshaller, ignore_error}
use sentinelstream.Simulator.Sensors.{
  GpsSensor, DroneSensor, VehicleSensor, TemperatureSensor, move_gps, move_drone, move_vehicle,
  move_temperature,
}

-- The sensor in the state that `Next` leaves, as data.
abbrev pub gps_data : {S : Type 0} → GpsSensor S → GpsData
gps_data g = record {
  latitude = g.lat;
  longitude = g.lon;
  altitude = g.alt;
  speed = g.speed;
  heading = g.heading;
}

abbrev pub drone_data : {S : Type 0} → DroneSensor S → DroneData
drone_data g = record {
  latitude = g.lat;
  longitude = g.lon;
  altitude = g.alt;
  battery = g.battery;
  signal = g.signal;
}

abbrev pub vehicle_data : {S : Type 0} → VehicleSensor S → VehicleData
vehicle_data g = record {
  latitude = g.lat;
  longitude = g.lon;
  speed = g.speed;
  fuel = g.fuel;
  mileage = g.mileage;
}

abbrev pub temperature_data : {S : Type 0} → TemperatureSensor S → TemperatureSensorData
temperature_data g = record { temperature = g.temp; humidity = g.humidity; unit = "celsius" }

-- `SensorGenerator`
pub data Generator (S : Type 0) : Type 0 where
  gps : GpsSensor S → Generator S
  drone : DroneSensor S → Generator S
  vehicle : VehicleSensor S → Generator S
  temperature : TemperatureSensor S → Generator S

-- `SensorID()` and `SensorType()`
abbrev pub id_of : {S : Type 0} → Generator S → String
id_of (gps g) = g.id
id_of (drone g) = g.id
id_of (vehicle g) = g.id
id_of (temperature g) = g.id

abbrev pub type_of : {S : Type 0} → Generator S → String
type_of (gps g) = "gps"
type_of (drone g) = "drone"
type_of (vehicle g) = "vehicle"
type_of (temperature g) = "temperature"

abbrev pub sequence_of : {S : Type 0} → Generator S → ℕ
sequence_of (gps g) = g.sequence
sequence_of (drone g) = g.sequence
sequence_of (vehicle g) = g.sequence
sequence_of (temperature g) = g.sequence

-- `Next()` of each sensor; `now` is the reading of the clock.
module _ {S : Type 0} (rand : Random S) (marshal : Marshaller) where
  unfoldable pub next_gps : Time → GpsSensor S → TelemetryMessage × GpsSensor S
  next_gps now g =
      let g' = move_gps rand g in
      (
        record {
          sensor_id = g'.id;
          sensor_type = "gps";
          sequence = g'.sequence;
          timestamp = now;
          payload = ignore_error (marshal.gps_data (gps_data g'));
        },
        g',
      )

  unfoldable pub next_drone : Time → DroneSensor S → TelemetryMessage × DroneSensor S
  next_drone now g =
      let g' = move_drone rand g in
      (
        record {
          sensor_id = g'.id;
          sensor_type = "drone";
          sequence = g'.sequence;
          timestamp = now;
          payload = ignore_error (marshal.drone_data (drone_data g'));
        },
        g',
      )

  unfoldable pub next_vehicle : Time → VehicleSensor S → TelemetryMessage × VehicleSensor S
  next_vehicle now g =
      let g' = move_vehicle rand g in
      (
        record {
          sensor_id = g'.id;
          sensor_type = "vehicle";
          sequence = g'.sequence;
          timestamp = now;
          payload = ignore_error (marshal.vehicle_data (vehicle_data g'));
        },
        g',
      )

  unfoldable pub next_temperature :
      Time → TemperatureSensor S → TelemetryMessage × TemperatureSensor S
  next_temperature now g =
      let g' = move_temperature rand g in
      (
        record {
          sensor_id = g'.id;
          sensor_type = "temperature";
          sequence = g'.sequence;
          timestamp = now;
          payload = ignore_error (marshal.temperature_sensor_data (temperature_data g'));
        },
        g',
      )

  unfoldable pub next : Time → Generator S → TelemetryMessage × Generator S
  next now (gps g) = let (msg, g') = next_gps now g in (msg, gps g')
  next now (drone g) = let (msg, g') = next_drone now g in (msg, drone g')
  next now (vehicle g) = let (msg, g') = next_vehicle now g in (msg, vehicle g')
  next now (temperature g) = let (msg, g') = next_temperature now g in (msg, temperature g')
