-- ===== src/Protocol/Parser.antt =====
-- internal/protocol/parser.go. `json.Unmarshal` is a parameter, one field for each type that it
-- fills; its error is a text.
use sentinelstream.Prelude.{String, List, ℕ, Option, none, some, Result, ok, err, ◌>>=◌}
use sentinelstream.Clock.{Time}
use sentinelstream.Protocol.Types.{
  TelemetryMessage, GpsData, DroneData, RadarData, TemperatureSensorData, PressureSensorData,
  VibrationSensorData, VehicleData, AssetTrackerData, PowerGridData, WeatherStationData,
  PatientVitalsData, MedicalDeviceData,
}
use sentinelstream.Protocol.Validation.{
  ValidationError, validate_telemetry_message, validate_gps_data, validate_drone_data,
  validate_radar_data, validate_temperature_sensor_data, validate_vehicle_data,
  validate_patient_vitals,
}

abbrev pub Decoder : Type 0 → Type 0
Decoder A = List ℕ → Result String A

pub record Codec : Type 0 where
  pub telemetry_message : Decoder TelemetryMessage
  pub gps_data : Decoder GpsData
  pub drone_data : Decoder DroneData
  pub radar_data : Decoder RadarData
  pub temperature_sensor_data : Decoder TemperatureSensorData
  pub pressure_sensor_data : Decoder PressureSensorData
  pub vibration_sensor_data : Decoder VibrationSensorData
  pub vehicle_data : Decoder VehicleData
  pub asset_tracker_data : Decoder AssetTrackerData
  pub power_grid_data : Decoder PowerGridData
  pub weather_station_data : Decoder WeatherStationData
  pub patient_vitals_data : Decoder PatientVitalsData
  pub medical_device_data : Decoder MedicalDeviceData

-- `fmt.Errorf("<context>: %w", err)` on the decoder's error, or a `ValidationError` as it is.
pub data ParseError : Type 0 where
  malformed : String → String → ParseError
  invalid : ValidationError → ParseError

-- `json.Unmarshal`, with its error wrapped.
abbrev pub unmarshal : {A : Type 0} → Decoder A → String → List ℕ → Result ParseError A
unmarshal decode context bytes = elim (decode bytes) [
  | ok a ↦ ok a
  | err e ↦ err (malformed context e)
]

-- `if err := Validate…(&data); err != nil { return nil, err }; return &data, nil`
abbrev pub accept_if : {A : Type 0} → Option ValidationError → A → Result ParseError A
accept_if none a = ok a
accept_if (some e) a = err (invalid e)

module _ (codec : Codec) where
  unfoldable pub parse_telemetry_message : Time → List ℕ → Result ParseError TelemetryMessage
  parse_telemetry_message now raw_json = do
    msg ← unmarshal codec.telemetry_message "failed to parse JSON" raw_json
    accept_if (validate_telemetry_message now msg) msg

  unfoldable pub parse_gps_data : TelemetryMessage → Result ParseError GpsData
  parse_gps_data msg = do
    d ← unmarshal codec.gps_data "failed to parse GPS data" msg.payload
    accept_if (validate_gps_data d) d

  unfoldable pub parse_drone_data : TelemetryMessage → Result ParseError DroneData
  parse_drone_data msg = do
    d ← unmarshal codec.drone_data "failed to parse drone data" msg.payload
    accept_if (validate_drone_data d) d

  unfoldable pub parse_radar_data : TelemetryMessage → Result ParseError RadarData
  parse_radar_data msg = do
    d ← unmarshal codec.radar_data "failed to parse radar data" msg.payload
    accept_if (validate_radar_data d) d

  unfoldable pub parse_temperature_sensor_data :
      TelemetryMessage → Result ParseError TemperatureSensorData
  parse_temperature_sensor_data msg = do
    d ← unmarshal codec.temperature_sensor_data "failed to parse temperature data" msg.payload
    accept_if (validate_temperature_sensor_data d) d

  unfoldable pub parse_pressure_sensor_data :
      TelemetryMessage → Result ParseError PressureSensorData
  parse_pressure_sensor_data msg =
      unmarshal codec.pressure_sensor_data "failed to parse pressure data" msg.payload

  unfoldable pub parse_vibration_sensor_data :
      TelemetryMessage → Result ParseError VibrationSensorData
  parse_vibration_sensor_data msg =
      unmarshal codec.vibration_sensor_data "failed to parse vibration data" msg.payload

  unfoldable pub parse_vehicle_data : TelemetryMessage → Result ParseError VehicleData
  parse_vehicle_data msg = do
    d ← unmarshal codec.vehicle_data "failed to parse vehicle data" msg.payload
    accept_if (validate_vehicle_data d) d

  unfoldable pub parse_asset_tracker_data : TelemetryMessage → Result ParseError AssetTrackerData
  parse_asset_tracker_data msg =
      unmarshal codec.asset_tracker_data "failed to parse asset tracker data" msg.payload

  unfoldable pub parse_power_grid_data : TelemetryMessage → Result ParseError PowerGridData
  parse_power_grid_data msg =
      unmarshal codec.power_grid_data "failed to parse power grid data" msg.payload

  unfoldable pub parse_weather_station_data :
      TelemetryMessage → Result ParseError WeatherStationData
  parse_weather_station_data msg =
      unmarshal codec.weather_station_data "failed to parse weather station data" msg.payload

  unfoldable pub parse_patient_vitals : TelemetryMessage → Result ParseError PatientVitalsData
  parse_patient_vitals msg = do
    d ← unmarshal codec.patient_vitals_data "failed to parse patient vitals" msg.payload
    accept_if (validate_patient_vitals d) d

  unfoldable pub parse_medical_device_data : TelemetryMessage → Result ParseError MedicalDeviceData
  parse_medical_device_data msg =
      unmarshal codec.medical_device_data "failed to parse medical device data" msg.payload
