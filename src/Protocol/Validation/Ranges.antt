-- ===== src/Protocol/Validation/Ranges.antt =====
-- What the validators of internal/protocol/validation.go accept, against ranges that are stated
-- without them. NaN passes every float test, and no other value outside its range does.
use sentinelstream.Prelude.{ℤ, pos, negsuc, ◌≤ℤ◌, ◌≡◌, ◌≢◌, ◌⊎◌, ◌↔◌, none, [], arith, str_eq_iff}
use sentinelstream.Clock.{Time, add_duration}
use sentinelstream.Float.{MoreThan, IsNan, in_bounds_iff, AtLeast-iff, MoreThan-iff}
use sentinelstream.Float.Bounds.{MayLie, MayReach}
use sentinelstream.Protocol.Types.{
  TelemetryMessage, GpsData, DroneData, RadarData, TemperatureSensorData, VehicleData,
  PatientVitalsData,
}
use sentinelstream.Protocol.Validation.{
  validate_telemetry_message, validate_gps_data, validate_drone_data, validate_radar_data,
  validate_temperature_sensor_data, validate_vehicle_data, validate_patient_vitals,
}

-- A whole number between bounds.
abbrev pub Within : ℤ → ℤ → ℤ → Type 0
Within lo hi x = (lo ≤ℤ x) × (x ≤ℤ hi)

pub record GpsInRange (d : GpsData) : Type 0 where
  pub latitude : MayLie (negsuc 89) (pos 90) d.latitude
  pub longitude : MayLie (negsuc 179) (pos 180) d.longitude
  pub altitude : MayReach (pos 0) d.altitude
  pub speed : MayReach (pos 0) d.speed

-- GPS data is accepted exactly if each field that is checked lies in its range or is NaN.
pub validate_gps_data-InRange : (d : GpsData) → (validate_gps_data d ≡ none) ↔ GpsInRange d
unfolding validate_gps_data
validate_gps_data-InRange d = ground (
  arith,
  in_bounds_iff (negsuc 89) (pos 90) d.latitude,
  in_bounds_iff (negsuc 179) (pos 180) d.longitude,
  AtLeast-iff (pos 0) d.altitude,
  AtLeast-iff (pos 0) d.speed,
)

pub record DroneInRange (d : DroneData) : Type 0 where
  pub latitude : MayLie (negsuc 89) (pos 90) d.latitude
  pub longitude : MayLie (negsuc 179) (pos 180) d.longitude
  pub altitude : MayReach (pos 0) d.altitude
  pub battery : Within (pos 0) (pos 100) d.battery
  pub signal : Within (pos 0) (pos 100) d.signal

-- Drone data is accepted exactly if position and altitude lie in their ranges or are NaN, and
-- battery and signal lie between 0 and 100.
pub validate_drone_data-InRange : (d : DroneData) → (validate_drone_data d ≡ none) ↔ DroneInRange d
unfolding validate_drone_data
validate_drone_data-InRange d = ground (
  arith,
  in_bounds_iff (negsuc 89) (pos 90) d.latitude,
  in_bounds_iff (negsuc 179) (pos 180) d.longitude,
  AtLeast-iff (pos 0) d.altitude,
)

pub record RadarInRange (d : RadarData) : Type 0 where
  pub target_count : pos 0 ≤ℤ d.target_count
  pub max_range : IsNan d.max_range ⊎ MoreThan (pos 0) d.max_range

-- Radar data is accepted exactly if the target count is not negative and the maximal range is
-- positive or NaN.
pub validate_radar_data-InRange : (d : RadarData) → (validate_radar_data d ≡ none) ↔ RadarInRange d
unfolding validate_radar_data
validate_radar_data-InRange d = ground (arith, MoreThan-iff (pos 0) d.max_range)

pub record TemperatureInRange (d : TemperatureSensorData) : Type 0 where
  pub humidity : MayLie (pos 0) (pos 100) d.humidity
  pub unit : d.unit ≢ ""

-- Temperature data is accepted exactly if the humidity lies between 0 and 100 or is NaN, and the
-- unit is not empty.
pub validate_temperature_sensor_data-InRange :
    (d : TemperatureSensorData) → (validate_temperature_sensor_data d ≡ none) ↔ TemperatureInRange d
unfolding validate_temperature_sensor_data
validate_temperature_sensor_data-InRange d =
    ground (arith, in_bounds_iff (pos 0) (pos 100) d.humidity, str_eq_iff d.unit "")

pub record VehicleInRange (d : VehicleData) : Type 0 where
  pub latitude : MayLie (negsuc 89) (pos 90) d.latitude
  pub longitude : MayLie (negsuc 179) (pos 180) d.longitude
  pub speed : MayReach (pos 0) d.speed
  pub fuel : MayReach (pos 0) d.fuel
  pub mileage : MayReach (pos 0) d.mileage

-- Vehicle data is accepted exactly if each field lies in its range or is NaN.
pub validate_vehicle_data-InRange :
    (d : VehicleData) → (validate_vehicle_data d ≡ none) ↔ VehicleInRange d
unfolding validate_vehicle_data
validate_vehicle_data-InRange d = ground (
  arith,
  in_bounds_iff (negsuc 89) (pos 90) d.latitude,
  in_bounds_iff (negsuc 179) (pos 180) d.longitude,
  AtLeast-iff (pos 0) d.speed,
  AtLeast-iff (pos 0) d.fuel,
  AtLeast-iff (pos 0) d.mileage,
)

pub record VitalsInRange (d : PatientVitalsData) : Type 0 where
  pub heart_rate : Within (pos 0) (pos 300) d.heart_rate
  pub temperature : MayLie (pos 35) (pos 42) d.temperature
  pub sp_o2 : Within (pos 0) (pos 100) d.sp_o2

-- Patient vitals are accepted exactly if the heart rate lies between 0 and 300, the temperature
-- between 35 and 42 or is NaN, and the oxygen saturation between 0 and 100.
pub validate_patient_vitals-InRange :
    (d : PatientVitalsData) → (validate_patient_vitals d ≡ none) ↔ VitalsInRange d
unfolding validate_patient_vitals
validate_patient_vitals-InRange d = ground (arith, in_bounds_iff (pos 35) (pos 42) d.temperature)

-- Of each kind of data, the validator accepts exactly what lies in its ranges: numbers that the code
-- compares as float64 may also be NaN, and fields that it does not check are free.
pub validators_exact :
    (gps : GpsData) (drone : DroneData) (radar : RadarData) (temperature : TemperatureSensorData)
    (vehicle : VehicleData) (vitals : PatientVitalsData)
    → ((validate_gps_data gps ≡ none) ↔ GpsInRange gps)
      × ((validate_drone_data drone ≡ none) ↔ DroneInRange drone)
      × ((validate_radar_data radar ≡ none) ↔ RadarInRange radar)
      × ((validate_temperature_sensor_data temperature ≡ none) ↔ TemperatureInRange temperature)
      × ((validate_vehicle_data vehicle ≡ none) ↔ VehicleInRange vehicle)
      × ((validate_patient_vitals vitals ≡ none) ↔ VitalsInRange vitals)
validators_exact gps drone radar temperature vehicle vitals = (
  validate_gps_data-InRange gps,
  validate_drone_data-InRange drone,
  validate_radar_data-InRange radar,
  validate_temperature_sensor_data-InRange temperature,
  validate_vehicle_data-InRange vehicle,
  validate_patient_vitals-InRange vitals,
)

pub record IsWellFormed (now : Time) (msg : TelemetryMessage) : Type 0 where
  pub sensor_id : msg.sensor_id ≢ ""
  pub sensor_type : msg.sensor_type ≢ ""
  pub dated : msg.timestamp ≢ pos 0
  pub not_ahead : msg.timestamp ≤ℤ add_duration now (pos 300000000000)
  pub payload : msg.payload ≢ []

-- A message is accepted exactly if sensor ID, sensor type and payload are not empty and its
-- timestamp is not the zero time and at most five minutes (3 * 10^11 ns) ahead of the clock.
pub validate_telemetry_message-IsWellFormed :
    (now : Time) (msg : TelemetryMessage)
    → (validate_telemetry_message now msg ≡ none) ↔ IsWellFormed now msg
unfolding validate_telemetry_message
validate_telemetry_message-IsWellFormed now msg =
    ground (arith, str_eq_iff msg.sensor_id "", str_eq_iff msg.sensor_type "")
