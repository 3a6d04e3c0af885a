-- ===== src/State/History.antt =====
-- A relation between the sequence numbers received from a sensor and its entry holds after any
-- log of calls, if each method keeps it.
use mathlib.Core.Option
use sentinelstream.Prelude.{
  ℕ, ◌<◌, ◌≡◌, refl, subst, true, Option, none, some, List, [], ◌∷◌, String, str_eq, str_eq_iff,
  arith, if◌then◌else◌, lookup, adjust, lookup-insert, lookup-adjust, u64_mod, Bool-cases,
  Option-cases, inl, inr,
}
use sentinelstream.Clock.{Time, Duration}
use sentinelstream.Protocol.Types.{TelemetryMessage}
use sentinelstream.State.Store.{
  SensorEntry, Sensors, StateStore, UpdateResult, no_result, new_state_store, new_entry,
  apply_message, update, count_error, count_anomaly, record_error, record_anomaly, mark, mark_all,
  check_stale,
}
use sentinelstream.State.Log.{
  Call, updates, errors, anomalies, scans, step, after, history, AreWords,
}

pub lookup-mark_all :
    (now : Time) (timeout : Duration) (k : String) (m : Sensors)
    → lookup k (mark_all now timeout m).0 ≡ Option.map (λ e. (mark now timeout e).0) (lookup k m)
unfolding mark_all lookup
lookup-mark_all now timeout k [] = ground arith
lookup-mark_all now timeout k ((j, e) ∷ m) = ground (arith, lookup-mark_all now timeout k m)

-- What `update` leaves of the sensor, from what it had.
abbrev pub next_entry : Time → TelemetryMessage → Option SensorEntry → SensorEntry
next_entry now msg none = new_entry now msg
next_entry now msg (some e) = (apply_message now msg.sequence e).0

pub lookup-update :
    (now : Time) (msg : TelemetryMessage) (s : StateStore) (k : String)
    → lookup k (update now msg s).0.sensors ≡ (
        if str_eq msg.sensor_id k
        then some (next_entry now msg (lookup msg.sensor_id s.sensors))
        else lookup k s.sensors)
unfolding update
lookup-update now msg s k = elim (Option-cases (lookup msg.sensor_id s.sensors)) [
  | inl e ↦ rw (e, update) (lookup-insert msg.sensor_id k _ s.sensors)
  | inr (x, e) ↦ rw (e, update) (lookup-insert msg.sensor_id k _ s.sensors)
]

abbrev pub next_result : TelemetryMessage → Time → Option SensorEntry → UpdateResult
next_result msg now none = record no_result { is_new_sensor = true }
next_result msg now (some e) = (apply_message now msg.sequence e).1

pub update-next_result :
    (now : Time) (msg : TelemetryMessage) (s : StateStore)
    → (update now msg s).1 ≡ next_result msg now (lookup msg.sensor_id s.sensors)
unfolding update
update-next_result now msg s = ground arith

-- A relation that every method keeps.
pub record IsKept (P : List ℕ → SensorEntry → Type 0) : Type 0 where
  pub start :
      (now : Time) (msg : TelemetryMessage)
      → msg.sequence < u64_mod
      → P (msg.sequence ∷ []) (new_entry now msg)
  pub next :
      (now : Time) (seq : ℕ) (h : List ℕ) (e : SensorEntry)
      → seq < u64_mod
      → P h e
      → P (seq ∷ h) (apply_message now seq e).0
  pub error : (h : List ℕ) (e : SensorEntry) → P h e → P h (count_error e)
  pub anomaly : (h : List ℕ) (e : SensorEntry) → P h e → P h (count_anomaly e)
  pub scan :
      (now : Time) (timeout : Duration) (h : List ℕ) (e : SensorEntry)
      → P h e
      → P h (mark now timeout e).0

-- Nothing was received from a sensor that has no entry.
abbrev pub Agrees : (List ℕ → SensorEntry → Type 0) → List ℕ → Option SensorEntry → Type 0
Agrees P h none = h ≡ []
Agrees P h (some e) = P h e

module _ (P : List ℕ → SensorEntry → Type 0) where
  Agrees-map :
      (f : SensorEntry → SensorEntry) (h : List ℕ) (o : Option SensorEntry)
      → ((e : SensorEntry) → P h e → P h (f e))
      → Agrees P h o
      → Agrees P h (Option.map f o)
  Agrees-map f h none keep t = t
  Agrees-map f h (some e) keep t = keep e t

  Agrees-adjust :
      (f : SensorEntry → SensorEntry) (j k : String) (h : List ℕ) (m : Sensors)
      → ((e : SensorEntry) → P h e → P h (f e))
      → Agrees P h (lookup k m)
      → Agrees P h (lookup k (adjust f j m))
  Agrees-adjust f j k h m keep t = elim (Bool-cases (str_eq j k)) [
    | inl e ↦ rw (lookup-adjust f j k m, e) (Agrees-map f h (lookup k m) keep t)
    | inr e ↦ rw (lookup-adjust f j k m, e) t
  ]

  Agrees-next :
      IsKept P
      → (now : Time) (msg : TelemetryMessage) (h : List ℕ) (o : Option SensorEntry)
      → msg.sequence < u64_mod
      → Agrees P h o
      → P (msg.sequence ∷ h) (next_entry now msg o)
  Agrees-next kept now msg h none w t = rw t (kept.start now msg w)
  Agrees-next kept now msg h (some e) w t = kept.next now msg.sequence h e w t

  pub after-Agrees :
      IsKept P
      → (log : List Call) → AreWords log
      → (k : String) → Agrees P (history k log) (lookup k (after log).sensors)
  unfolding after step history new_state_store record_error record_anomaly check_stale lookup
  after-Agrees kept [] w k = refl
  after-Agrees kept (updates now msg ∷ log) w k = elim (Bool-cases (str_eq msg.sensor_id k)) [
    | inl e ↦
        let old = lookup msg.sensor_id (after log).sensors in
        rw (lookup-update now msg (after log) k, e)
          (subst (λ j. P (msg.sequence ∷ history j log) (next_entry now msg old))
            ((str_eq_iff msg.sensor_id k).0 e)
            (Agrees-next kept now msg (history msg.sensor_id log) old w.0
              (after-Agrees kept log w.1 msg.sensor_id)))
    | inr e ↦ rw (lookup-update now msg (after log) k, e) (after-Agrees kept log w.1 k)
  ]
  after-Agrees kept (errors j ∷ log) w k =
      Agrees-adjust count_error j k _ (after log).sensors (kept.error (history k log))
        (after-Agrees kept log w k)
  after-Agrees kept (anomalies j ∷ log) w k =
      Agrees-adjust count_anomaly j k _ (after log).sensors (kept.anomaly (history k log))
        (after-Agrees kept log w k)
  after-Agrees kept (scans now timeout ∷ log) w k =
      rw (lookup-mark_all now timeout k (after log).sensors)
        (Agrees-map _ _ _ (kept.scan now timeout (history k log)) (after-Agrees kept log w k))
