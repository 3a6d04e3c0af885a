-- ===== src/State/Store.antt =====
-- The store's data and methods, in the order of internal/state/state.go.
use sentinelstream.Prelude.{
  ℕ, ◌-◌, Bool, true, false, Option, none, some, List, [], ◌∷◌, map, String, ltb, leb, ◌==◌,
  if◌then◌else◌, length, keep, contains, lookup, insert, adjust, values, add64, sub64, ltb_ℤ,
}
use sentinelstream.Clock.{Time, Duration, elapsed}
use sentinelstream.Protocol.Types.{TelemetryMessage}

abbrev pub recent_seq_window : ℕ
recent_seq_window = 64

-- The values of the text field `Status`: "healthy", "stale", and "" of a zero `SensorState`.
pub data Status : Type 0 where
  unset healthy stale : Status

abbrev pub is_stale : Status → Bool
is_stale unset = false
is_stale healthy = false
is_stale stale = true

pub record SensorState : Type 0 where
  pub sensor_id : String
  pub sensor_type : String
  pub status : Status
  pub last_sequence : ℕ
  pub first_seen : Time
  pub last_seen : Time
  pub message_count : ℕ
  pub dropped_count : ℕ
  pub duplicate_count : ℕ
  pub out_of_order_count : ℕ
  pub error_count : ℕ
  pub anomaly_count : ℕ

pub record UpdateResult : Type 0 where
  pub is_new_sensor : Bool
  pub is_duplicate : Bool
  pub is_out_of_order : Bool
  pub dropped_count : ℕ

-- `UpdateResult{}`
abbrev pub no_result : UpdateResult
no_result = record {
  is_new_sensor = false;
  is_duplicate = false;
  is_out_of_order = false;
  dropped_count = 0;
}

-- The set `recentSeqs` is a list without repetitions.
pub record SensorEntry : Type 0 where
  pub state : SensorState
  pub recent_seqs : List ℕ

abbrev pub Sensors : Type 0
Sensors = List (String × SensorEntry)

pub record StateStore : Type 0 where
  pub sensors : Sensors

unfoldable pub new_state_store : StateStore
new_state_store = record { sensors = [] }

-- `recentSeqs[seq] = struct{}{}`
abbrev pub remember : ℕ → List ℕ → List ℕ
remember seq seqs = if contains seqs seq then seqs else seq ∷ seqs

unfoldable pub prune_recent_seqs : SensorEntry → SensorEntry
prune_recent_seqs entry =
    if ltb entry.state.last_sequence recent_seq_window
    then entry
    else (let floor = entry.state.last_sequence - recent_seq_window in
        record entry { recent_seqs = keep (λ seq. leb floor seq) entry.recent_seqs })

unfoldable pub new_entry : Time → TelemetryMessage → SensorEntry
new_entry now msg = record {
  state = record {
    sensor_id = msg.sensor_id;
    sensor_type = msg.sensor_type;
    status = healthy;
    last_sequence = msg.sequence;
    first_seen = now;
    last_seen = now;
    message_count = 1;
    dropped_count = 0;
    duplicate_count = 0;
    out_of_order_count = 0;
    error_count = 0;
    anomaly_count = 0;
  };
  recent_seqs = msg.sequence ∷ [];
}

-- `st.LastSeen = now; st.Status = StatusHealthy; st.MessageCount++`
abbrev pub touch : Time → SensorState → SensorState
touch now st = record st {
  status = healthy;
  last_seen = now;
  message_count = add64 st.message_count 1;
}

-- The cases of the switch in `Update`.
abbrev pub note_duplicate : SensorEntry → SensorEntry × UpdateResult
note_duplicate entry = (
  record entry {
    state = record (entry.state) { duplicate_count = add64 entry.state.duplicate_count 1 };
  },
  record no_result { is_duplicate = true },
)

abbrev pub note_out_of_order : ℕ → SensorEntry → SensorEntry × UpdateResult
note_out_of_order seq entry = (
  record {
    state = record (entry.state) { out_of_order_count = add64 entry.state.out_of_order_count 1 };
    recent_seqs = remember seq entry.recent_seqs;
  },
  record no_result { is_out_of_order = true },
)

-- `gap` is 0 for the next number in sequence, and then nothing is counted.
abbrev pub note_advance : ℕ → SensorEntry → SensorEntry × UpdateResult
unfolding prune_recent_seqs
note_advance seq entry =
    let st = entry.state in
    let gap = sub64 (sub64 seq st.last_sequence) 1 in
    let dropped = if ltb 0 gap then add64 st.dropped_count gap else st.dropped_count in
    (
      prune_recent_seqs (record {
        state = record st { dropped_count = dropped; last_sequence = seq };
        recent_seqs = remember seq entry.recent_seqs;
      }),
      record no_result { dropped_count = if ltb 0 gap then gap else 0 },
    )

-- What `Update` does to the entry of a known sensor.
unfoldable pub apply_message : Time → ℕ → SensorEntry → SensorEntry × UpdateResult
unfolding prune_recent_seqs
apply_message now seq entry =
    let touched = record entry { state = touch now entry.state } in
    if seq == entry.state.last_sequence
    then note_duplicate touched
    else if ltb entry.state.last_sequence seq
    then note_advance seq touched
    else if contains entry.recent_seqs seq
    then note_duplicate touched
    else note_out_of_order seq touched

unfoldable pub update : Time → TelemetryMessage → StateStore → StateStore × UpdateResult
update now msg s = elim (lookup msg.sensor_id s.sensors) [
  | none ↦ (
    record { sensors = insert msg.sensor_id (new_entry now msg) s.sensors },
    record no_result { is_new_sensor = true },
  )
  | some entry ↦
      let (entry', result) = apply_message now msg.sequence entry in
      (record { sensors = insert msg.sensor_id entry' s.sensors }, result)
]

-- `entry.state.ErrorCount++`
abbrev pub count_error : SensorEntry → SensorEntry
count_error entry = record entry {
  state = record (entry.state) { error_count = add64 entry.state.error_count 1 };
}

abbrev pub count_anomaly : SensorEntry → SensorEntry
count_anomaly entry = record entry {
  state = record (entry.state) { anomaly_count = add64 entry.state.anomaly_count 1 };
}

unfoldable pub record_error : String → StateStore → StateStore
record_error sensor_id s = record { sensors = adjust count_error sensor_id s.sensors }

unfoldable pub record_anomaly : String → StateStore → StateStore
record_anomaly sensor_id s = record { sensors = adjust count_anomaly sensor_id s.sensors }

-- The body of the loop of `CheckStale`: the entry, and whether its ID is appended.
unfoldable pub mark : Time → Duration → SensorEntry → SensorEntry × Bool
mark now timeout entry =
    if is_stale entry.state.status
    then (entry, false)
    else if ltb_ℤ timeout (elapsed now entry.state.last_seen)
    then (record entry { state = record (entry.state) { status = stale } }, true)
    else (entry, false)

unfoldable pub mark_all : Time → Duration → Sensors → Sensors × List String
unfolding mark
mark_all now timeout [] = ([], [])
mark_all now timeout ((k, entry) ∷ rest) =
    let (entry', newly) = mark now timeout entry in
    let (rest', ids) = mark_all now timeout rest in
    ((k, entry') ∷ rest', if newly then entry.state.sensor_id ∷ ids else ids)

unfoldable pub check_stale : Time → Duration → StateStore → StateStore × List String
unfolding mark_all
check_stale now timeout s =
    let (sensors, ids) = mark_all now timeout s.sensors in (record { sensors = sensors }, ids)

-- `Get`: `none` stands for a zero `SensorState` and false.
unfoldable pub get : String → StateStore → Option SensorState
get sensor_id s = elim (lookup sensor_id s.sensors) [ none ↦ none | some entry ↦ some entry.state ]

unfoldable pub list : StateStore → List SensorState
list s = map (λ entry. entry.state) (values s.sensors)

unfoldable pub count : StateStore → ℕ
count s = length s.sensors
