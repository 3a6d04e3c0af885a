-- ===== src/State/Keys.antt =====
-- Every entry of the store stands under its own sensor ID, and under no other key.
use sentinelstream.Prelude.{
  ℕ, ◌+◌, ◌≡◌, refl, ◌∙◌, none, some, List, [], ◌∷◌, String, str_eq_iff, arith, if◌then◌else◌,
  length, lookup, adjust, insert, lookup-insert, lookup-adjust, length-insert, length-adjust,
  Option-cases, inl, inr,
}
use sentinelstream.Clock.{Time, Duration}
use sentinelstream.Protocol.Types.{TelemetryMessage}
use sentinelstream.State.Store.{
  SensorEntry, Sensors, StateStore, new_state_store, new_entry, apply_message, update, count_error,
  count_anomaly, record_error, record_anomaly, mark, mark_all, check_stale, count,
  prune_recent_seqs,
}
use sentinelstream.State.Log.{Call, updates, errors, anomalies, scans, step, after}
use sentinelstream.State.History.{lookup-mark_all}

abbrev pub IsKeyed : Sensors → Type 0
IsKeyed [] = Unit
IsKeyed ((k, e) ∷ m) = (e.state.sensor_id ≡ k) × (lookup k m ≡ none) × IsKeyed m

insert-IsKeyed :
    (k : String) (e : SensorEntry) (m : Sensors)
    → e.state.sensor_id ≡ k
    → IsKeyed m
    → IsKeyed (insert k e m)
unfolding insert lookup
insert-IsKeyed k e [] p d = ground arith
insert-IsKeyed k e ((i, w) ∷ m) p d =
    ground
      (arith, str_eq_iff i k, str_eq_iff k i, lookup-insert k i e m, insert-IsKeyed k e m p d.2)

pub lookup-IsKeyed :
    (k : String) (m : Sensors) (e : SensorEntry)
    → IsKeyed m
    → lookup k m ≡ some e
    → e.state.sensor_id ≡ k
unfolding lookup
lookup-IsKeyed k [] e d p = cc
lookup-IsKeyed k ((i, w) ∷ m) e d p = ground (arith, str_eq_iff i k, lookup-IsKeyed k m e d.2)

adjust-IsKeyed :
    (f : SensorEntry → SensorEntry) (k : String) (m : Sensors)
    → ((e : SensorEntry) → (f e).state.sensor_id ≡ e.state.sensor_id)
    → IsKeyed m
    → IsKeyed (adjust f k m)
unfolding adjust lookup
adjust-IsKeyed f k [] same d = ground arith
adjust-IsKeyed f k ((i, w) ∷ m) same d =
    ground (arith, lookup-adjust f k i m, same w, adjust-IsKeyed f k m same d.2)

mark_same_id :
    (now : Time) (timeout : Duration) (e : SensorEntry)
    → (mark now timeout e).0.state.sensor_id ≡ e.state.sensor_id
unfolding mark
mark_same_id now timeout e = ground arith

pub mark_all-IsKeyed :
    (now : Time) (timeout : Duration) (m : Sensors) → IsKeyed m → IsKeyed (mark_all now timeout m).0
unfolding mark_all
mark_all-IsKeyed now timeout [] d = d
mark_all-IsKeyed now timeout ((i, w) ∷ m) d = ground (
  arith,
  mark_same_id now timeout w,
  lookup-mark_all now timeout i m,
  mark_all-IsKeyed now timeout m d.2,
)

apply_message_id :
    (now : Time) (seq : ℕ) (e : SensorEntry)
    → (apply_message now seq e).0.state.sensor_id ≡ e.state.sensor_id
unfolding apply_message prune_recent_seqs
apply_message_id now seq e = ground arith

pub update-IsKeyed :
    (now : Time) (msg : TelemetryMessage) (s : StateStore)
    → IsKeyed s.sensors
    → IsKeyed (update now msg s).0.sensors
unfolding update new_entry
update-IsKeyed now msg s d = elim (Option-cases (lookup msg.sensor_id s.sensors)) [
  | inl e ↦ rw (e, update) (insert-IsKeyed msg.sensor_id _ s.sensors refl d)
  | inr (x, e) ↦
      rw (e, update)
        (insert-IsKeyed msg.sensor_id _ s.sensors
          (apply_message_id now msg.sequence x ∙ lookup-IsKeyed msg.sensor_id s.sensors x d e) d)
]

-- After any log of calls every entry stands under its own sensor ID, and once.
pub after-IsKeyed : (log : List Call) → IsKeyed (after log).sensors
unfolding after step new_state_store record_error record_anomaly check_stale
after-IsKeyed [] = tt
after-IsKeyed (updates now msg ∷ log) = update-IsKeyed now msg (after log) (after-IsKeyed log)
after-IsKeyed (errors k ∷ log) = adjust-IsKeyed count_error k _ (λ e. refl) (after-IsKeyed log)
after-IsKeyed (anomalies k ∷ log) = adjust-IsKeyed count_anomaly k _ (λ e. refl) (after-IsKeyed log)
after-IsKeyed (scans now timeout ∷ log) = mark_all-IsKeyed now timeout _ (after-IsKeyed log)

length-mark_all :
    (now : Time) (timeout : Duration) (m : Sensors) → length (mark_all now timeout m).0 ≡ length m
unfolding mark_all
length-mark_all now timeout [] = refl
length-mark_all now timeout ((i, w) ∷ m) = ground (arith, length-mark_all now timeout m)

count-update :
    (now : Time) (msg : TelemetryMessage) (s : StateStore)
    → count (update now msg s).0
      ≡ (if (update now msg s).1.is_new_sensor then count s + 1 else count s)
unfolding count update apply_message
count-update now msg s = elim (Option-cases (lookup msg.sensor_id s.sensors)) [
  | inl e ↦
      rw (e, update) (ground (arith, length-insert msg.sensor_id (new_entry now msg) s.sensors))
  | inr (x, e) ↦
      let x' = (apply_message now msg.sequence x).0 in
      rw (e, update) (ground (arith, length-insert msg.sensor_id x' s.sensors))
]

-- `Count` grows by one with a message that is reported as a new sensor's, and by no other call.
count-step :
    (s : StateStore) (now : Time) (msg : TelemetryMessage) (k : String) (timeout : Duration)
    → (count (step s (updates now msg))
        ≡ (if (update now msg s).1.is_new_sensor then count s + 1 else count s))
      × (count (step s (errors k)) ≡ count s)
      × (count (step s (anomalies k)) ≡ count s)
      × (count (step s (scans now timeout)) ≡ count s)
unfolding count step record_error record_anomaly check_stale
count-step s now msg k timeout = (
  count-update now msg s,
  length-adjust count_error k s.sensors,
  length-adjust count_anomaly k s.sensors,
  length-mark_all now timeout s.sensors,
)
