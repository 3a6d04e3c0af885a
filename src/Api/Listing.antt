-- ===== src/Api/Listing.antt =====
-- What the API shows of the sensors: every sensor once, healthy or stale.
use mathlib.Core.Option
use sentinelstream.Prelude.{
  ℕ, suc, ◌+◌, ◌%◌, ◌≡◌, refl, sym, subst, Bool, true, false, Option, none, some, List, [], ◌∷◌,
  String, str_eq, if◌then◌else◌, arith, lookup, values, adjust, insert, u64_mod, map, length,
  Option-cases, inl, inr,
}
use sentinelstream.Clock.{Time, Duration}
use sentinelstream.Protocol.Types.{TelemetryMessage}
use sentinelstream.State.Store.{
  StateStore, SensorEntry, Sensors, Status, healthy, stale, unset, get, list, count, mark, mark_all,
  apply_message, prune_recent_seqs, new_entry, update, record_error, record_anomaly, check_stale,
  count_error, count_anomaly, new_state_store,
}
use sentinelstream.State.Log.{Call, updates, errors, anomalies, scans, after, step}
use sentinelstream.State.Keys.{IsKeyed, after-IsKeyed}
use sentinelstream.Processor.Worker.{Worker}
use sentinelstream.Processor.Stats.{sum_of, stats-IsSum}
use sentinelstream.Ingestion.Udp
use sentinelstream.Ingestion.Tcp
use sentinelstream.Api.{
  Server, SensorSummary, SensorAnswer, found, not_found, to_sensor_summary, to_sensor_detail,
  handle_list_sensors, handle_get_sensor, MetricsSummary, count_statuses, handle_metrics_summary,
  summarise,
}

abbrev is_set : Status → Bool
is_set unset = false
is_set healthy = true
is_set stale = true

abbrev IsMarked : Sensors → Type 0
IsMarked [] = Unit
IsMarked ((k, e) ∷ m) = (is_set e.state.status ≡ true) × IsMarked m

insert-IsMarked :
    (k : String) (e : SensorEntry) (m : Sensors)
    → is_set e.state.status ≡ true
    → IsMarked m
    → IsMarked (insert k e m)
unfolding insert
insert-IsMarked k e [] p d = (p, tt)
insert-IsMarked k e ((i, w) ∷ m) p d = ground (arith, insert-IsMarked k e m p d.1)

adjust-IsMarked :
    (f : SensorEntry → SensorEntry) (k : String) (m : Sensors)
    → ((e : SensorEntry) → is_set (f e).state.status ≡ is_set e.state.status)
    → IsMarked m
    → IsMarked (adjust f k m)
unfolding adjust
adjust-IsMarked f k [] same d = tt
adjust-IsMarked f k ((i, w) ∷ m) same d = ground (arith, same w, adjust-IsMarked f k m same d.1)

mark_all-IsMarked :
    (now : Time) (timeout : Duration) (m : Sensors)
    → IsMarked m
    → IsMarked (mark_all now timeout m).0
unfolding mark_all mark
mark_all-IsMarked now timeout [] d = tt
mark_all-IsMarked now timeout ((i, w) ∷ m) d = ground (arith, mark_all-IsMarked now timeout m d.1)

apply_message_set :
    (now : Time) (seq : ℕ) (e : SensorEntry)
    → is_set (apply_message now seq e).0.state.status ≡ true
unfolding apply_message prune_recent_seqs
apply_message_set now seq e = ground arith

update-IsMarked :
    (now : Time) (msg : TelemetryMessage) (s : StateStore)
    → IsMarked s.sensors
    → IsMarked (update now msg s).0.sensors
unfolding update new_entry
update-IsMarked now msg s d = elim (Option-cases (lookup msg.sensor_id s.sensors)) [
  | inl e ↦ rw (e, update) (insert-IsMarked msg.sensor_id (new_entry now msg) s.sensors refl d)
  | inr (x, e) ↦
      rw (e, update)
        (insert-IsMarked msg.sensor_id (apply_message now msg.sequence x).0 s.sensors
          (apply_message_set now msg.sequence x) d)
]

after-IsMarked : (log : List Call) → IsMarked (after log).sensors
unfolding after step new_state_store record_error record_anomaly check_stale
after-IsMarked [] = tt
after-IsMarked (updates now msg ∷ log) = update-IsMarked now msg (after log) (after-IsMarked log)
after-IsMarked (errors k ∷ log) =
    adjust-IsMarked count_error k (after log).sensors (λ e. refl) (after-IsMarked log)
after-IsMarked (anomalies k ∷ log) =
    adjust-IsMarked count_anomaly k (after log).sensors (λ e. refl) (after-IsMarked log)
after-IsMarked (scans now timeout ∷ log) =
    mark_all-IsMarked now timeout (after log).sensors (after-IsMarked log)

abbrev pub is_healthy : Status → Bool
is_healthy unset = false
is_healthy healthy = true
is_healthy stale = false

abbrev pub is_stale : Status → Bool
is_stale unset = false
is_stale healthy = false
is_stale stale = true

-- How many entries of the list of sensors have a status.
unfoldable pub listed : (Status → Bool) → List SensorSummary → ℕ
listed p [] = 0
listed p (x ∷ xs) = if p x.status then suc (listed p xs) else listed p xs

abbrev summaries : Sensors → List SensorSummary
summaries m = map to_sensor_summary (map (λ e. e.state) (values m))

count_statuses-listed :
    (a b : ℕ) (m : Sensors)
    → let (x, y) = count_statuses a b (map (λ e. e.state) (values m)) in
      (x ≡ a + listed is_healthy (summaries m)) × (y ≡ b + listed is_stale (summaries m))
unfolding count_statuses listed to_sensor_summary
count_statuses-listed a b [] = (omega arith, omega arith)
count_statuses-listed a b ((k, e) ∷ m) = ground (
  arith,
  count_statuses-listed (a + 1) b m,
  count_statuses-listed a (b + 1) m,
  count_statuses-listed a b m,
)

-- Every sensor is listed as the one or the other.
listed_all :
    (m : Sensors)
    → IsMarked m
    → listed is_healthy (summaries m) + listed is_stale (summaries m) ≡ length m
unfolding listed to_sensor_summary
listed_all [] d = refl
listed_all ((k, e) ∷ m) d = ground (arith, listed_all m d.1)

-- What the summary says of the sensors, the workers and the listeners.
pub record IsExact (s : Server) (ws : List Worker) (r : MetricsSummary) : Type 0 where
  pub healthy_listed : r.healthy_sensors ≡ listed is_healthy (handle_list_sensors s)
  pub stale_listed : r.stale_sensors ≡ listed is_stale (handle_list_sensors s)
  pub every_sensor : r.healthy_sensors + r.stale_sensors ≡ count s.store
  pub processed : r.messages_processed % u64_mod ≡ sum_of (λ w. w.messages_processed) ws % u64_mod
  pub failed : r.processing_errors % u64_mod ≡ sum_of (λ w. w.errors) ws % u64_mod
  pub strange : r.anomalies_detected % u64_mod ≡ sum_of (λ w. w.anomalies) ws % u64_mod
  pub lost : r.dropped_messages % u64_mod ≡ sum_of (λ w. w.dropped) ws % u64_mod
  pub repeated : r.duplicate_messages % u64_mod ≡ sum_of (λ w. w.duplicates) ws % u64_mod
  pub late : r.out_of_order_messages % u64_mod ≡ sum_of (λ w. w.out_of_order) ws % u64_mod
  pub queued : r.queue_depth ≡ length s.proc.jobs.buffer
  pub received : r.messages_received ≡ (s.udp.messages_received + s.tcp.messages_received) % u64_mod
  pub rejected : r.validation_errors ≡ (s.udp.messages_rejected + s.tcp.messages_rejected) % u64_mod

-- The metrics summary of a server whose pool has its workers, and whose store has seen any log of
-- calls, is there; it counts as healthy and as stale the sensors that the list of sensors shows so,
-- and each sensor once; it adds up the workers' counters, and the messages that the two listeners
-- received, and those that they rejected, modulo 2^64; and its queue depth is the number of messages
-- in the queue.
pub handle_metrics_summary-IsExact :
    (s : Server) (log : List Call) (ws : List Worker)
    → s.store ≡ after log
    → s.proc.workers ≡ map some ws
    → (r : MetricsSummary) × (handle_metrics_summary s ≡ some r) × IsExact s ws r
unfolding handle_metrics_summary summarise list count Udp.stats Tcp.stats handle_list_sensors
handle_metrics_summary-IsExact s log ws e h =
    let (ps, counted, sums, depth) = stats-IsSum s.proc ws h in
    let (as_healthy, as_stale) = count_statuses-listed 0 0 s.store.sensors in
    let all =
      listed_all s.store.sensors
        (subst (λ (st : StateStore). IsMarked st.sensors) (sym e) (after-IsMarked log)) in
    (
      summarise s ps,
      rw counted refl,
      record {
        healthy_listed = omega (arith, as_healthy);
        stale_listed = omega (arith, as_stale);
        every_sensor = omega (arith, as_healthy, as_stale, all);
        processed = omega (arith, sums.processed);
        failed = omega (arith, sums.errors);
        strange = omega (arith, sums.anomalies);
        lost = omega (arith, sums.dropped);
        repeated = omega (arith, sums.duplicates);
        late = omega (arith, sums.out_of_order);
        queued = depth;
        received = refl;
        rejected = refl;
      },
    )

-- The first summary with the ID.
unfoldable pub find_summary : String → List SensorSummary → Option SensorSummary
find_summary k [] = none
find_summary k (x ∷ xs) = if str_eq x.sensor_id k then some x else find_summary k xs

abbrev pub summary_of : SensorAnswer → Option SensorSummary
summary_of (not_found k) = none
summary_of (found d) = some (record {
  sensor_id = d.sensor_id;
  sensor_type = d.sensor_type;
  status = d.status;
  last_seen = d.last_seen;
})

find_summary-lookup :
    (k : String) (m : Sensors)
    → IsKeyed m
    → find_summary k (map to_sensor_summary (map (λ e. e.state) (values m)))
      ≡ Option.map (λ e. to_sensor_summary e.state) (lookup k m)
unfolding find_summary lookup to_sensor_summary
find_summary-lookup k [] d = ground arith
find_summary-lookup k ((i, w) ∷ m) d = ground (arith, d.0, find_summary-lookup k m d.2)

-- On a store that has seen any log of calls, asking for a sensor finds it exactly if the list of
-- sensors has a summary with its ID, and then ID, type, status and time are the same.
pub handle_get_sensor-handle_list_sensors :
    (s : Server) (log : List Call) (k : String)
    → s.store ≡ after log
    → summary_of (handle_get_sensor k s) ≡ find_summary k (handle_list_sensors s)
unfolding handle_get_sensor handle_list_sensors get list to_sensor_detail to_sensor_summary
handle_get_sensor-handle_list_sensors s log k e =
    let keyed = subst (λ (st : StateStore). IsKeyed st.sensors) (sym e) (after-IsKeyed log) in
    ground (arith, find_summary-lookup k s.store.sensors keyed)
