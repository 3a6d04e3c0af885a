-- ===== src/Protocol/Validation.antt =====
-- internal/protocol/validation.go. A validator returns the first failure, or `none` for nil;
-- `now` is the reading of `time.Now()`.
pub mod Ranges
use sentinelstream.Prelude.{
  ℕ, ℤ, pos, negsuc, ltb_ℤ, leb_ℤ, Bool, ◌||◌, String, str_eq, List, [], ◌∷◌, Option, none, some,
  length, ltb, ◌==◌, if◌then◌else◌,
}
use sentinelstream.Clock.{Time, is_zero, is_after, add_duration, minute}
use sentinelstream.Float.{Float64, whole, ltb_float, leb_float}
use sentinelstream.Protocol.Types.{
  TelemetryMessage, GpsData, DroneData, RadarData, TemperatureSensorData, VehicleData,
  PatientVitalsData,
}

pub record ValidationError : Type 0 where
  pub field : String
  pub reason : String

abbrev pub fails : String → String → Option ValidationError
fails field reason = some (record { field = field; reason = reason })

-- `time.Now().Add(5 * time.Minute)`
abbrev pub max_skew : ℤ
max_skew = pos 300000000000

unfoldable pub validate_telemetry_message : Time → TelemetryMessage → Option ValidationError
validate_telemetry_message now msg =
    if str_eq msg.sensor_id ""
    then fails "sensor_id" "required"
    else if str_eq msg.sensor_type ""
    then fails "sensor_type" "required"
    else if is_zero msg.timestamp
    then fails "timestamp" "required"
    else if is_after msg.timestamp (add_duration now max_skew)
    then fails "timestamp" "cannot be in the future"
    else if length msg.payload == 0
    then fails "data" "required"
    else none

unfoldable pub validate_gps_data : GpsData → Option ValidationError
validate_gps_data d =
    if ltb_float d.latitude (whole (negsuc 89)) || ltb_float (whole (pos 90)) d.latitude
    then fails "latitude" "must be between -90 and 90"
    else if ltb_float d.longitude (whole (negsuc 179)) || ltb_float (whole (pos 180)) d.longitude
    then fails "longitude" "must be between -180 and 180"
    else if ltb_float d.altitude (whole (pos 0))
    then fails "altitude" "must be non-negative"
    else if ltb_float d.speed (whole (pos 0))
    then fails "speed" "must be non-negative"
    else none

unfoldable pub validate_drone_data : DroneData → Option ValidationError
validate_drone_data d =
    if ltb_float d.latitude (whole (negsuc 89)) || ltb_float (whole (pos 90)) d.latitude
    then fails "latitude" "must be between -90 and 90"
    else if ltb_float d.longitude (whole (negsuc 179)) || ltb_float (whole (pos 180)) d.longitude
    then fails "longitude" "must be between -180 and 180"
    else if ltb_float d.altitude (whole (pos 0))
    then fails "altitude" "must be non-negative"
    else if ltb_ℤ d.battery (pos 0) || ltb_ℤ (pos 100) d.battery
    then fails "battery" "must be between 0 and 100"
    else if ltb_ℤ d.signal (pos 0) || ltb_ℤ (pos 100) d.signal
    then fails "signal" "must be between 0 and 100"
    else none

unfoldable pub validate_radar_data : RadarData → Option ValidationError
validate_radar_data d =
    if ltb_ℤ d.target_count (pos 0)
    then fails "target_count" "must be non-negative"
    else if leb_float d.max_range (whole (pos 0))
    then fails "max_range" "must be positive"
    else none

unfoldable pub validate_temperature_sensor_data : TemperatureSensorData → Option ValidationError
validate_temperature_sensor_data d =
    if ltb_float d.humidity (whole (pos 0)) || ltb_float (whole (pos 100)) d.humidity
    then fails "humidity" "must be between 0 and 100"
    else if str_eq d.unit ""
    then fails "unit" "required"
    else none

unfoldable pub validate_battery_percentage : ℤ → Option ValidationError
validate_battery_percentage battery =
    if ltb_ℤ battery (pos 0) || ltb_ℤ (pos 100) battery
    then fails "battery" "must be between 0 and 100"
    else none

unfoldable pub validate_vehicle_data : VehicleData → Option ValidationError
validate_vehicle_data d =
    if ltb_float d.latitude (whole (negsuc 89)) || ltb_float (whole (pos 90)) d.latitude
    then fails "latitude" "must be between -90 and 90"
    else if ltb_float d.longitude (whole (negsuc 179)) || ltb_float (whole (pos 180)) d.longitude
    then fails "longitude" "must be between -180 and 180"
    else if ltb_float d.speed (whole (pos 0))
    then fails "speed" "must be non-negative"
    else if ltb_float d.fuel (whole (pos 0))
    then fails "fuel" "must be non-negative"
    else if ltb_float d.mileage (whole (pos 0))
    then fails "mileage" "must be non-negative"
    else none

unfoldable pub validate_patient_vitals : PatientVitalsData → Option ValidationError
validate_patient_vitals d =
    if ltb_ℤ d.heart_rate (pos 0) || ltb_ℤ (pos 300) d.heart_rate
    then fails "heart_rate" "must be between 0 and 300"
    else if ltb_float d.temperature (whole (pos 35)) || ltb_float (whole (pos 42)) d.temperature
    then fails "temperature" "must be between 35 and 42 Celsius"
    else if ltb_ℤ d.sp_o2 (pos 0) || ltb_ℤ (pos 100) d.sp_o2
    then fails "spo2" "must be between 0 and 100"
    else none
