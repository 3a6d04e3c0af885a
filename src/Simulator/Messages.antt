-- ===== src/Simulator/Messages.antt =====
-- The messages that a simulator sends pass the worker's check of their payload.
use mathlib.Core.Path.{ap₂}
use sentinelstream.Prelude.{
  ℕ, zero, suc, ◌+◌, ◌*◌, ◌≡◌, refl, ap, ◌∙◌, ◌⊎◌, inl, inr, arith, List, [], ◌∷◌, ◌++◌, map,
  String, Result, ok, err, none, add64, All, length, length-append,
}
use sentinelstream.Clock.{Time}
use sentinelstream.Protocol.Types.{
  TelemetryMessage, GpsData, DroneData, VehicleData, TemperatureSensorData,
}
use sentinelstream.Protocol.Parser.{Codec}
use sentinelstream.Processor.Worker.{check_payload}
use sentinelstream.Processor.Outcomes.{check_payload_exact, Fits}
use sentinelstream.Simulator.Random.{Random, IsRandom, Marshaller}
use sentinelstream.Simulator.Sensors.{move_gps, move_drone, move_vehicle, move_temperature}
use sentinelstream.Simulator.Generators.{
  Generator, gps, drone, vehicle, temperature, gps_data, drone_data, vehicle_data, temperature_data,
  id_of, type_of, sequence_of, next,
}
use sentinelstream.Simulator.Moving.{move, marshalled, message_of, next-move}
use sentinelstream.Simulator.Generated.{IsReady, IsInRange, move-IsInRange, IsInRange-IsReady}
use sentinelstream.Simulator.Rounds.{one_each, all_rounds, all_ticks, run-rounds, length-map}
use sentinelstream.Simulator.Building.{IsFresh, new_simulator-IsBuilt}
use sentinelstream.Simulator.Running.{SimulatorConfig, new_simulator, sensor_count, run}

All-append : {A : Type 0} (P : A → Type 0) (xs ys : List A) → All P xs → All P ys → All P (xs ++ ys)
All-append P [] ys h t = t
All-append P (x ∷ xs) ys (p, h) t = (p, All-append P xs ys h t)

move_lem :
    {S : Type 0} (rand : Random S) (g : Generator S)
    → (id_of (move rand g) ≡ id_of g)
      × (type_of (move rand g) ≡ type_of g)
      × (sequence_of (move rand g) ≡ add64 (sequence_of g) 1)
unfolding move_gps move_drone move_vehicle move_temperature
move_lem rand (gps g) = (refl, refl, refl)
move_lem rand (drone g) = (refl, refl, refl)
move_lem rand (vehicle g) = (refl, refl, refl)
move_lem rand (temperature g) = (refl, refl, refl)

-- What `json.Marshal` writes of the sensors' data, `json.Unmarshal` reads back.
pub record IsReadBack (codec : Codec) (marshal : Marshaller) : Type 0 where
  pub gps_data :
      (d : GpsData) (bytes : List ℕ) → marshal.gps_data d ≡ ok bytes → codec.gps_data bytes ≡ ok d
  pub drone_data :
      (d : DroneData) (bytes : List ℕ)
      → marshal.drone_data d ≡ ok bytes
      → codec.drone_data bytes ≡ ok d
  pub vehicle_data :
      (d : VehicleData) (bytes : List ℕ)
      → marshal.vehicle_data d ≡ ok bytes
      → codec.vehicle_data bytes ≡ ok d
  pub temperature_sensor_data :
      (d : TemperatureSensorData) (bytes : List ℕ)
      → d.unit ≡ "celsius"
      → marshal.temperature_sensor_data d ≡ ok bytes
      → codec.temperature_sensor_data bytes ≡ ok d

-- Either the data could not be marshalled, and the message has no payload, or the worker's check
-- reports nothing.
abbrev pub Passes : Codec → TelemetryMessage → Type 0
Passes codec msg = (msg.payload ≡ []) ⊎ (check_payload codec msg ≡ none)

module _ (codec : Codec) (marshal : Marshaller) (readable : IsReadBack codec marshal)
    {S : Type 0} where
  fits :
      (now : Time) (g : Generator S) (bytes : List ℕ)
      → IsInRange g
      → marshalled marshal g ≡ ok bytes
      → Fits codec (message_of now (ok bytes) g)
  fits now (gps g) bytes h e = (gps_data g, readable.gps_data _ bytes e, h)
  fits now (drone g) bytes h e = (drone_data g, readable.drone_data _ bytes e, h)
  fits now (vehicle g) bytes h e = (vehicle_data g, readable.vehicle_data _ bytes e, h)
  fits now (temperature g) bytes h e =
      (temperature_data g, readable.temperature_sensor_data _ bytes refl e, h)

  moved-Passes :
      (now : Time) (g : Generator S) (r : Result String (List ℕ))
      → IsInRange g
      → marshalled marshal g ≡ r
      → Passes codec (message_of now r g)
  moved-Passes now g (err x) h e = inl refl
  moved-Passes now g (ok bytes) h e =
      inr ((check_payload_exact codec (message_of now (ok bytes) g)).0.1 (fits now g bytes h e))

  module _ (rand : Random S) (random : IsRandom S rand) where
    sent-Passes :
        (now : Time) (g : Generator S)
        → IsReady g
        → Passes codec (message_of now (marshalled marshal (move rand g)) (move rand g))
    sent-Passes now g h =
        moved-Passes now (move rand g) (marshalled marshal (move rand g))
          (move-IsInRange rand random g h) refl

    next-Passes :
        (now : Time) (g : Generator S) → IsReady g → Passes codec (next rand marshal now g).0
    next-Passes now g h = rw (next-move rand marshal now g) (sent-Passes now g h)

    move-IsReady : (g : Generator S) → IsReady g → IsReady (move rand g)
    move-IsReady g h = IsInRange-IsReady (move rand g) (move-IsInRange rand random g h)

    map-IsReady : (gs : List (Generator S)) → All IsReady gs → All IsReady (map (move rand) gs)
    map-IsReady [] h = tt
    map-IsReady (g ∷ gs) (h, t) = (move-IsReady g h, map-IsReady gs t)

    one_each-Passes :
        (now : ℕ → Time) (gs : List (Generator S))
        → All IsReady gs
        → All (Passes codec) (one_each rand marshal now gs)
    one_each-Passes now [] h = tt
    one_each-Passes now (g ∷ gs) (h, t) =
        (next-Passes (now 0) g h, one_each-Passes (λ i. now (suc i)) gs t)

    pub all_rounds-Passes :
        (k : ℕ) (now : ℕ → ℕ → Time) (gs : List (Generator S))
        → All IsReady gs
        → All (Passes codec) (all_rounds rand marshal k now gs)
    unfolding all_rounds
    all_rounds-Passes zero now gs h = tt
    all_rounds-Passes (suc k) now gs h =
        All-append (Passes codec) (one_each rand marshal (now 0) gs) _
          (one_each-Passes (now 0) gs h)
          (all_rounds-Passes k (λ r. now (suc r)) (map (move rand) gs) (map-IsReady gs h))

    -- A ready sensor (of a drone the battery is between 0 and 100, of a vehicle the mileage is not
    -- negative or NaN) sends a message with its ID, its type and the next sequence number, modulo 2^64,
    -- and is ready again. The message passes the worker's check unless its data could not be
    -- marshalled, for random numbers in their documented ranges, if what is marshalled is read back.
    pub next_lem :
        (now : Time) (g : Generator S)
        → IsReady g
        → let (msg, g') = next rand marshal now g in
          IsReady g'
          × (msg.sensor_id ≡ id_of g)
          × (msg.sensor_type ≡ type_of g)
          × (msg.sequence ≡ add64 (sequence_of g) 1)
          × Passes codec msg
    next_lem now g h =
        let (same_id, same_type, one_more) = move_lem rand g in
        rw (next-move rand marshal now g)
          (move-IsReady g h, same_id, same_type, one_more, sent-Passes now g h)

one_more_round : (k n : ℕ) → n + k * n ≡ suc k * n
one_more_round k n = grind arith

length-one_each :
    {S : Type 0} (rand : Random S) (marshal : Marshaller) (now : ℕ → Time) (gs : List (Generator S))
    → length (one_each rand marshal now gs) ≡ length gs
length-one_each rand marshal now [] = refl
length-one_each rand marshal now (g ∷ gs) =
    ap suc (length-one_each rand marshal (λ i. now (suc i)) gs)

length-all_rounds :
    {S : Type 0} (rand : Random S) (marshal : Marshaller) (k : ℕ) (now : ℕ → ℕ → Time)
    (gs : List (Generator S))
    → length (all_rounds rand marshal k now gs) ≡ k * length gs
unfolding all_rounds
length-all_rounds rand marshal zero now gs = omega arith
length-all_rounds rand marshal (suc k) now gs =
    let first = one_each rand marshal (now 0) gs in
    let later = all_rounds rand marshal k (λ r. now (suc r)) (map (move rand) gs) in
    length-append first later
    ∙ ap₂ (λ m n. m + n) (length-one_each rand marshal (now 0) gs)
        (length-all_rounds rand marshal k (λ r. now (suc r)) (map (move rand) gs)
          ∙ ap (λ m. k * m) (length-map (move rand) gs))
    ∙ one_more_round k (length gs)

fresh-IsReady : {S : Type 0} (gs : List (Generator S)) → All IsFresh gs → All IsReady gs
fresh-IsReady [] h = tt
fresh-IsReady (g ∷ gs) ((h, e), t) = (h, fresh-IsReady gs t)

-- A simulator that has just been built, and whose ticks in so many rounds all send, sends that many
-- messages for each of its sensors. Each passes the worker's check unless its data could not be
-- marshalled, for any random numbers in their documented ranges, if what is marshalled is read back.
pub simulated-Passes :
    (codec : Codec) (marshal : Marshaller)
    → IsReadBack codec marshal
    → {S : Type 0} (rand : Random S) → IsRandom S rand
    → (sprintf : String → ℕ → String) (config : SimulatorConfig) (s : S) (k : ℕ)
      (now : ℕ → ℕ → Time)
    → let sim = new_simulator rand sprintf config s in
      let msgs = (run rand marshal (all_ticks k now (sensor_count sim)) sim).0 in
      (length msgs ≡ k * sensor_count sim) × All (Passes codec) msgs
simulated-Passes codec marshal readable rand random sprintf config s k now =
    let sim = new_simulator rand sprintf config s in
    let (idle, fresh, count) = new_simulator-IsBuilt rand random sprintf config s in
    rw (run-rounds rand marshal k now sim idle) (
      length-all_rounds rand marshal k now sim.generators,
      all_rounds-Passes codec marshal readable rand random k now sim.generators
          (fresh-IsReady sim.generators fresh),
    )
