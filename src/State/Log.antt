-- ===== src/State/Log.antt =====
-- All calls that change the store, in one log, newest first.
use sentinelstream.Prelude.{ℕ, ◌<◌, List, [], ◌∷◌, String, str_eq, if◌then◌else◌, u64_mod}
use sentinelstream.Clock.{Time, Duration}
use sentinelstream.Protocol.Types.{TelemetryMessage}
use sentinelstream.State.Store.{
  StateStore, new_state_store, update, record_error, record_anomaly, check_stale,
}

pub data Call : Type 0 where
  updates : Time → TelemetryMessage → Call
  errors anomalies : String → Call
  scans : Time → Duration → Call

unfoldable pub step : StateStore → Call → StateStore
step s (updates now msg) = (update now msg s).0
step s (errors sensor_id) = record_error sensor_id s
step s (anomalies sensor_id) = record_anomaly sensor_id s
step s (scans now timeout) = (check_stale now timeout s).0

-- The store after the calls.
unfoldable pub after : List Call → StateStore
after [] = new_state_store
after (c ∷ log) = step (after log) c

-- The sequence numbers that came from a sensor, newest first.
unfoldable pub history : String → List Call → List ℕ
history sensor_id [] = []
history sensor_id (updates now msg ∷ log) =
    if str_eq msg.sensor_id sensor_id
    then msg.sequence ∷ history sensor_id log
    else history sensor_id log
history sensor_id (errors _ ∷ log) = history sensor_id log
history sensor_id (anomalies _ ∷ log) = history sensor_id log
history sensor_id (scans _ _ ∷ log) = history sensor_id log

-- Sequence numbers are `uint64`.
abbrev pub AreWords : List Call → Type 0
AreWords [] = Unit
AreWords (updates now msg ∷ log) = (msg.sequence < u64_mod) × AreWords log
AreWords (errors _ ∷ log) = AreWords log
AreWords (anomalies _ ∷ log) = AreWords log
AreWords (scans _ _ ∷ log) = AreWords log
