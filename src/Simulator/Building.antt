-- ===== src/Simulator/Building.antt =====
-- What `NewSimulator` builds.
use sentinelstream.Prelude.{
  ℕ, zero, suc, ◌+◌, ◌*◌, ◌==◌, ◌≡◌, refl, ◌∙◌, arith, Bool, true, false, ◌||◌, Option, none, some,
  List, [], ◌∷◌, ◌++◌, String, str_eq, ℤ, pos, pos_part, if◌then◌else◌, length, length-append, All,
}
use sentinelstream.Simulator.Random.{Random, IsRandom}
use sentinelstream.Simulator.Sensors.{
  new_gps_sensor, new_drone_sensor, new_vehicle_sensor, new_temperature_sensor,
}
use sentinelstream.Simulator.Generators.{Generator, sequence_of}
use sentinelstream.Simulator.Generated.{IsReady, new_drone-IsReady, new_vehicle-IsReady}
use sentinelstream.Simulator.Running.{
  SimulatorConfig, default_types, Building, extend, new_sensor, add_sensors, add_types,
  new_simulator,
}

-- A type that the constructor knows.
abbrev pub is_known : String → Bool
is_known t = str_eq t "gps" || str_eq t "drone" || str_eq t "vehicle" || str_eq t "temperature"

-- How many sensors n of each type are, those of unknown types left out.
unfoldable pub expected : ℕ → List String → ℕ
expected n [] = 0
expected n (t ∷ types) = if is_known t then n + expected n types else expected n types

-- A sensor that has sent nothing.
abbrev pub IsFresh : {S : Type 0} → Generator S → Type 0
IsFresh g = IsReady g × (sequence_of g ≡ 0)

-- What the switch gives, by whether the type is known.
abbrev IsNew : {S : Type 0} → Bool → Option (Generator S × S) → Type 0
IsNew known none = known ≡ false
IsNew known (some x) = (known ≡ true) × IsFresh x.0

choose-IsNew :
    {S : Type 0} (a b c d : Bool) (w x y z : Generator S × S)
    → IsFresh w.0
    → IsFresh x.0
    → IsFresh y.0
    → IsFresh z.0
    → IsNew (a || b || c || d) (
        if a
        then some w
        else if b
        then some x
        else if c
        then some y
        else if d
        then some z
        else none)
choose-IsNew true b c d w x y z p q r t = (refl, p)
choose-IsNew false true c d w x y z p q r t = (refl, q)
choose-IsNew false false true d w x y z p q r t = (refl, r)
choose-IsNew false false false true w x y z p q r t = (refl, t)
choose-IsNew false false false false w x y z p q r t = refl

All-snoc :
    {A : Type 0} (P : A → Type 0) (xs : List A) (x : A) → All P xs → P x → All P (xs ++ x ∷ [])
All-snoc P [] x h p = (p, tt)
All-snoc P (y ∷ xs) x (q, h) p = (q, All-snoc P xs x h p)

abbrev grown : Bool → ℕ → ℕ → ℕ
grown known n m = if known then n + m else n

grown_zero : (known : Bool) (n : ℕ) → n ≡ grown known n 0
grown_zero true n = omega arith
grown_zero false n = refl

grown-suc : (known : Bool) (n m : ℕ) → grown known (grown known n 1) m ≡ grown known n (suc m)
grown-suc true n m = omega arith
grown-suc false n m = refl

grown-add : (known : Bool) (n m k : ℕ) → grown known n m + k ≡ n + (if known then m + k else k)
grown-add true n m k = omega arith
grown-add false n m k = refl

-- So many fresh sensors.
abbrev IsBuilt : {S : Type 0} → ℕ → List (Generator S) → Type 0
IsBuilt n gs = (length gs ≡ n) × All IsFresh gs

module _ {S : Type 0} (rand : Random S) (random : IsRandom S rand)
    (sprintf : String → ℕ → String) where
  new_sensor-IsNew :
      (t id : String) (seed : ℤ) (s : S) → IsNew (is_known t) (new_sensor rand sprintf t id seed s)
  unfolding new_sensor new_gps_sensor new_drone_sensor new_vehicle_sensor new_temperature_sensor
  new_sensor-IsNew t id seed s =
      choose-IsNew (str_eq t "gps") (str_eq t "drone") (str_eq t "vehicle") (str_eq t "temperature")
        _ _ _ _ (tt, refl) (new_drone-IsReady rand random id seed s, refl)
        (new_vehicle-IsReady rand random id seed s, refl) (tt, refl)

  extend-IsBuilt :
      (known : Bool) (r : Option (Generator S × S)) (n : ℕ) (b : Building S)
      → IsNew known r
      → IsBuilt n b.built
      → IsBuilt (grown known n 1) (extend r b).built
  extend-IsBuilt known none n b fresh h = rw fresh h
  extend-IsBuilt known (some (g, s)) n b (yes_known, fresh) (h, t) =
      rw yes_known
        (omega (arith, length-append b.built (g ∷ []), h), All-snoc IsFresh b.built g t fresh)

  add_sensors-IsBuilt :
      (t : String) (left i n : ℕ) (b : Building S)
      → IsBuilt n b.built
      → IsBuilt (grown (is_known t) n left) (add_sensors rand sprintf t left i b).built
  unfolding add_sensors
  add_sensors-IsBuilt t zero i n b (h, t') = (h ∙ grown_zero (is_known t) n, t')
  add_sensors-IsBuilt t (suc left) i n b h =
      let known = is_known t in
      let r = new_sensor rand sprintf t (sprintf t i) (pos (b.sensor_index * 1000 + i)) b.source in
      let one_more = extend-IsBuilt known r n b (new_sensor-IsNew t (sprintf t i) _ b.source) h in
      let (h', t') = add_sensors-IsBuilt t left (i + 1) (grown known n 1) (extend r b) one_more in
      (h' ∙ grown-suc known n left, t')

  add_types-IsBuilt :
      (per_type : ℕ) (types : List String) (n : ℕ) (b : Building S)
      → IsBuilt n b.built
      → IsBuilt (n + expected per_type types) (add_types rand sprintf per_type types b).built
  unfolding add_types expected
  add_types-IsBuilt per_type [] n b (h, t') = (omega arith, t')
  add_types-IsBuilt per_type (t ∷ types) n b h =
      let (h', t') =
        add_types-IsBuilt per_type types (grown (is_known t) n per_type)
          (add_sensors rand sprintf t per_type 0 b) (add_sensors-IsBuilt t per_type 0 n b h) in
      (h' ∙ grown-add (is_known t) n per_type (expected per_type types), t')

expected-chosen :
    (empty : Bool) (n : ℕ) (types : List String)
    → 0 + expected n (if empty then default_types else types)
      ≡ (if empty then 4 * n else expected n types)
unfolding expected
expected-chosen true n types = omega arith
expected-chosen false n types = omega arith

-- The constructor builds so many sensors of each known type as the configuration says, none below 0,
-- and takes the four types it knows if the configuration names no type. Each sensor has sent nothing,
-- and is ready, for random numbers in their documented ranges.
pub new_simulator-IsBuilt :
    {S : Type 0} (rand : Random S)
    → IsRandom S rand
    → (sprintf : String → ℕ → String) (config : SimulatorConfig) (s : S)
    → let sim = new_simulator rand sprintf config s in
      let n = pos_part config.number_of_sensors in
      (sim.generator_index ≡ 0)
      × All IsFresh sim.generators
      × (length sim.generators
          ≡ (if length config.sensor_types == 0 then 4 * n else expected n config.sensor_types))
unfolding new_simulator
new_simulator-IsBuilt rand random sprintf config s =
    let n = pos_part config.number_of_sensors in
    let start : Building _ = record { sensor_index = 0; built = []; source = s } in
    let empty = length config.sensor_types == 0 in
    let types = if empty then default_types else config.sensor_types in
    let (count, fresh) = add_types-IsBuilt rand random sprintf n types 0 start (refl, tt) in
    (refl, fresh, count ∙ expected-chosen empty n config.sensor_types)
