-- ===== src/Processor/Outcomes.antt =====
-- How each message is counted: once in the worker, and in the store by the calls of one message.
use sentinelstream.Prelude.{
  ◌≡◌, ◌≢◌, ◌↔◌, ◌⊎◌, refl, sym, ap, ◌∙◌, inl, inr, Bool, true, false, Option, none, some, [],
  String, str_eq, if◌then◌else◌, Result, ok, err, ◌>>=◌,
}
use sentinelstream.Protocol.Types.{TelemetryMessage}
use sentinelstream.Protocol.Validation.{ValidationError}
use sentinelstream.Protocol.Validation.Ranges.{
  GpsInRange, DroneInRange, RadarInRange, TemperatureInRange, VehicleInRange, VitalsInRange,
  validate_gps_data-InRange, validate_drone_data-InRange, validate_radar_data-InRange,
  validate_temperature_sensor_data-InRange, validate_vehicle_data-InRange,
  validate_patient_vitals-InRange,
}
use sentinelstream.Protocol.Parser.{
  Codec, Decoder, ParseError, malformed, invalid, unmarshal, accept_if, parse_gps_data,
  parse_drone_data, parse_vehicle_data, parse_temperature_sensor_data, parse_radar_data,
  parse_patient_vitals,
}
use sentinelstream.Processor.Worker.{error_of, check_payload}

Result-cases {ℓ κ} :
    {E : Type ℓ} {A : Type κ} (r : Result E A) → ((a : A) × (r ≡ ok a)) ⊎ ((e : E) × (r ≡ err e))
Result-cases (ok a) = inl (a, refl)
Result-cases (err e) = inr (e, refl)

none-ne-some : {A : Type 0} {a : A} → ◌≡◌ {A = Option A} none (some a) → ⊥
none-ne-some h = cc

true-ne-false : ◌≡◌ {A = Bool} true false → ⊥
true-ne-false h = cc

-- A payload that its decoder reads as data in range.
abbrev Carries : {A : Type 0} → Decoder A → (A → Type 0) → TelemetryMessage → Type 0
Carries {A} decode InRange msg = (d : A) × (decode msg.payload ≡ ok d) × InRange d

-- A payload that its decoder reads as data out of range.
abbrev Strays : {A : Type 0} → Decoder A → (A → Type 0) → TelemetryMessage → Type 0
Strays {A} decode InRange msg = (d : A) × (decode msg.payload ≡ ok d) × (¬ InRange d)

-- Is it a `ValidationError`?
abbrev pub is_invalid : Option ParseError → Bool
is_invalid none = false
is_invalid (some (malformed context e)) = false
is_invalid (some (invalid e)) = true

module _ {A : Type 0} (decode : Decoder A) (context : String)
    (validate : A → Option ValidationError) (InRange : A → Type 0)
    (exact : (d : A) → (validate d ≡ none) ↔ InRange d) where
  -- What a parser with this decoder and validator reports.
  abbrev report_of : Result String A → Option ParseError
  report_of r = error_of (unmarshal (λ _. r) context [] >>= λ d. accept_if (validate d) d)

  abbrev report : TelemetryMessage → Option ParseError
  report msg = report_of (decode msg.payload)

  report_ok :
      (msg : TelemetryMessage) (d : A)
      → decode msg.payload ≡ ok d
      → report msg ≡ error_of (accept_if (validate d) d)
  report_ok msg d e = ap report_of e

  report_err :
      (msg : TelemetryMessage) (x : String)
      → decode msg.payload ≡ err x
      → report msg ≡ some (malformed context x)
  report_err msg x e = ap report_of e

  accept-none : (d : A) (v : Option ValidationError) → error_of (accept_if v d) ≡ none → v ≡ none
  accept-none d none h = refl
  accept-none d (some x) h = cc

  accept-invalid :
      (d : A) (v : Option ValidationError) → is_invalid (error_of (accept_if v d)) ≡ true → v ≢ none
  accept-invalid d none h = cc
  accept-invalid d (some x) h = λ p. cc

  invalid-accept :
      (d : A) (v : Option ValidationError) → v ≢ none → is_invalid (error_of (accept_if v d)) ≡ true
  invalid-accept d none h = absurd (h refl)
  invalid-accept d (some x) h = refl

  -- Nothing is reported exactly if the payload decodes to data in range.
  report-Carries : (msg : TelemetryMessage) → (report msg ≡ none) ↔ Carries decode InRange msg
  report-Carries msg = (
    λ h. elim (Result-cases (decode msg.payload)) [
      | inl (d, e) ↦ (d, e, (exact d).0 (accept-none d (validate d) (sym (report_ok msg d e) ∙ h)))
      | inr (x, e) ↦ absurd (none-ne-some (sym h ∙ report_err msg x e))
    ],
    λ c. report_ok msg c.0 c.1 ∙ rw ((exact c.0).1 c.2),
  )

  -- A `ValidationError` is reported exactly if the payload decodes to data out of range.
  report-Strays :
      (msg : TelemetryMessage) → (is_invalid (report msg) ≡ true) ↔ Strays decode InRange msg
  report-Strays msg = (
    λ h. elim (Result-cases (decode msg.payload)) [
      | inl (d, e) ↦ (
        d,
        e,
        λ r.
            accept-invalid d (validate d) (ap is_invalid (sym (report_ok msg d e)) ∙ h)
              ((exact d).1 r),
      )
      | inr (x, e) ↦ absurd (true-ne-false (sym h ∙ ap is_invalid (report_err msg x e)))
    ],
    λ c.
        ap is_invalid (report_ok msg c.0 c.1)
        ∙ invalid-accept c.0 (validate c.0) (λ p. c.2 ((exact c.0).0 p)),
  )

-- A statement that is chosen by the type of the sensor; any other type has `other`.
abbrev pub ByType :
    TelemetryMessage → (gps drone vehicle temperature radar vitals other : Type 0) → Type 0
ByType msg gps drone vehicle temperature radar vitals other =
    if str_eq msg.sensor_type "gps"
    then gps
    else if str_eq msg.sensor_type "drone"
    then drone
    else if str_eq msg.sensor_type "vehicle"
    then vehicle
    else if str_eq msg.sensor_type "temperature"
    then temperature
    else if str_eq msg.sensor_type "radar"
    then radar
    else if str_eq msg.sensor_type "patient_vitals"
    then vitals
    else other

-- The payload decodes to data in range, if its type is one of the six that are checked.
abbrev pub Fits : Codec → TelemetryMessage → Type 0
Fits codec msg =
    ByType msg (Carries codec.gps_data GpsInRange msg) (Carries codec.drone_data DroneInRange msg)
      (Carries codec.vehicle_data VehicleInRange msg)
      (Carries codec.temperature_sensor_data TemperatureInRange msg)
      (Carries codec.radar_data RadarInRange msg)
      (Carries codec.patient_vitals_data VitalsInRange msg) Unit

-- Its type is one of the six, and the payload decodes to data out of range.
abbrev pub IsAnomalous : Codec → TelemetryMessage → Type 0
IsAnomalous codec msg =
    ByType msg (Strays codec.gps_data GpsInRange msg) (Strays codec.drone_data DroneInRange msg)
      (Strays codec.vehicle_data VehicleInRange msg)
      (Strays codec.temperature_sensor_data TemperatureInRange msg)
      (Strays codec.radar_data RadarInRange msg)
      (Strays codec.patient_vitals_data VitalsInRange msg) ⊥

choose_iff :
    {A : Type 0} (P : A → Type 0) (b : Bool) (x y : A) {Q R : Type 0}
    → (P x ↔ Q)
    → (P y ↔ R)
    → P (if b then x else y) ↔ (if b then Q else R)
choose_iff P true x y q r = q
choose_iff P false x y q r = r

by_type_iff :
    (P : Option ParseError → Type 0) (msg : TelemetryMessage) (a b c d e f : Option ParseError)
    {A B C D E F G : Type 0}
    → (P a ↔ A)
    → (P b ↔ B)
    → (P c ↔ C)
    → (P d ↔ D)
    → (P e ↔ E)
    → (P f ↔ F)
    → (P none ↔ G)
    → P (
        if str_eq msg.sensor_type "gps"
        then a
        else if str_eq msg.sensor_type "drone"
        then b
        else if str_eq msg.sensor_type "vehicle"
        then c
        else if str_eq msg.sensor_type "temperature"
        then d
        else if str_eq msg.sensor_type "radar"
        then e
        else if str_eq msg.sensor_type "patient_vitals"
        then f
        else none)
      ↔ ByType msg A B C D E F G
by_type_iff P msg a b c d e f p q r s t u v = choose_iff P (str_eq msg.sensor_type "gps") _ _ p (
    choose_iff P (str_eq msg.sensor_type "drone") _ _ q (
      choose_iff P (str_eq msg.sensor_type "vehicle") _ _ r (
        choose_iff P (str_eq msg.sensor_type "temperature") _ _ s (
          choose_iff P (str_eq msg.sensor_type "radar") _ _ t
            (choose_iff P (str_eq msg.sensor_type "patient_vitals") _ _ u v)))))

-- The check of a payload reports nothing exactly if the payload fits, and a `ValidationError`
-- exactly if it is anomalous: one of the six checked types, decoded, and out of range.
pub check_payload_exact :
    (codec : Codec) (msg : TelemetryMessage)
    → ((check_payload codec msg ≡ none) ↔ Fits codec msg)
      × ((is_invalid (check_payload codec msg) ≡ true) ↔ IsAnomalous codec msg)
unfolding check_payload parse_gps_data parse_drone_data parse_vehicle_data
    parse_temperature_sensor_data parse_radar_data parse_patient_vitals
check_payload_exact codec msg = (
  by_type_iff (λ o. o ≡ none) msg _ _ _ _ _ _
      (report-Carries codec.gps_data _ _ GpsInRange validate_gps_data-InRange msg)
      (report-Carries codec.drone_data _ _ DroneInRange validate_drone_data-InRange msg)
      (report-Carries codec.vehicle_data _ _ VehicleInRange validate_vehicle_data-InRange msg)
      (report-Carries codec.temperature_sensor_data _ _ TemperatureInRange
        validate_temperature_sensor_data-InRange msg)
      (report-Carries codec.radar_data _ _ RadarInRange validate_radar_data-InRange msg)
      (report-Carries codec.patient_vitals_data _ _ VitalsInRange validate_patient_vitals-InRange
        msg)
      (λ h. tt, λ h. refl),
  by_type_iff (λ o. is_invalid o ≡ true) msg _ _ _ _ _ _
      (report-Strays codec.gps_data _ _ GpsInRange validate_gps_data-InRange msg)
      (report-Strays codec.drone_data _ _ DroneInRange validate_drone_data-InRange msg)
      (report-Strays codec.vehicle_data _ _ VehicleInRange validate_vehicle_data-InRange msg)
      (report-Strays codec.temperature_sensor_data _ _ TemperatureInRange
        validate_temperature_sensor_data-InRange msg)
      (report-Strays codec.radar_data _ _ RadarInRange validate_radar_data-InRange msg)
      (report-Strays codec.patient_vitals_data _ _ VitalsInRange validate_patient_vitals-InRange
        msg)
      (λ h. cc, λ h. absurd h),
)
