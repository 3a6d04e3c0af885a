-- ===== src/Protocol/Types.antt =====
-- internal/protocol/types.go: a message, and the payload of each kind of sensor.
-- A float64 is a `Float64`, an `int` an integer, and `json.RawMessage` its bytes.
use sentinelstream.Prelude.{ℕ, ℤ, Bool, String, List}
use sentinelstream.Clock.{Time}
use sentinelstream.Float.{Float64}

pub record TelemetryMessage : Type 0 where
  pub sensor_id : String
  pub sensor_type : String
  pub sequence : ℕ
  pub timestamp : Time
  pub payload : List ℕ

pub record GpsData : Type 0 where
  pub latitude : Float64
  pub longitude : Float64
  pub altitude : Float64
  pub speed : Float64
  pub heading : Float64

pub record DroneData : Type 0 where
  pub latitude : Float64
  pub longitude : Float64
  pub altitude : Float64
  pub battery : ℤ
  pub signal : ℤ

pub record RadarData : Type 0 where
  pub target_count : ℤ
  pub max_range : Float64
  pub operational : Bool

pub record TemperatureSensorData : Type 0 where
  pub temperature : Float64
  pub humidity : Float64
  pub unit : String

pub record PressureSensorData : Type 0 where
  pub pressure : Float64
  pub unit : String

pub record VibrationSensorData : Type 0 where
  pub frequency : Float64
  pub amplitude : Float64
  pub unit : String

pub record VehicleData : Type 0 where
  pub latitude : Float64
  pub longitude : Float64
  pub speed : Float64
  pub fuel : Float64
  pub mileage : Float64

pub record AssetTrackerData : Type 0 where
  pub latitude : Float64
  pub longitude : Float64
  pub temperature : Float64
  pub humidity : Float64

pub record PowerGridData : Type 0 where
  pub voltage : Float64
  pub current : Float64
  pub frequency : Float64
  pub power_factor : Float64

pub record WeatherStationData : Type 0 where
  pub temperature : Float64
  pub humidity : Float64
  pub pressure : Float64
  pub wind_speed : Float64
  pub precipitation : Float64

pub record PatientVitalsData : Type 0 where
  pub heart_rate : ℤ
  pub blood_pressure : String
  pub temperature : Float64
  pub sp_o2 : ℤ

pub record MedicalDeviceData : Type 0 where
  pub device_id : String
  pub status : String
  pub battery : ℤ
  pub last_cal : String
