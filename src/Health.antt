-- ===== src/Health.antt =====
-- internal/health/monitor.go: the scans for sensors that stopped sending. Log lines are the list of
-- sensors that are warned about.
mod Tests
use sentinelstream.Prelude.{
  ℕ, zero, suc, ◌+◌, ◌≤◌, ◌≡◌, refl, Bool, true, false, Option, none, some, List, [], ◌∷◌, ◌++◌,
  String, str_eq, str_eq_iff, if◌then◌else◌, leb_ℤ, pos, arith, lookup, Outcome, returns, panics,
}
use mathlib.Core.Option
use sentinelstream.Clock.{Time, Duration, second}
use sentinelstream.State.Store.{
  StateStore, SensorEntry, Sensors, is_stale, mark, mark_all, check_stale,
}
use sentinelstream.State.Log.{Call, after}
use sentinelstream.State.History.{lookup-mark_all}
use sentinelstream.State.Keys.{IsKeyed, after-IsKeyed, mark_all-IsKeyed}
use sentinelstream.State.Marks.{newly}

pub record MonitorConfig : Type 0 where
  pub stale_timeout : Duration
  pub check_interval : Duration

-- The configuration that the monitor keeps.
unfoldable pub new_monitor : MonitorConfig → MonitorConfig
new_monitor config = record {
  stale_timeout =
      if leb_ℤ config.stale_timeout (pos 0) then pos 5000000000 else config.stale_timeout;
  check_interval = if leb_ℤ config.check_interval (pos 0) then second else config.check_interval;
}

-- The monitor: how many goroutines of it run, and whether `stopChan` is closed.
pub record Monitor : Type 0 where
  pub config : MonitorConfig
  pub loops : ℕ
  pub stop_closed : Bool

abbrev pub make_monitor : MonitorConfig → Monitor
make_monitor config = record { config = config; loops = 0; stop_closed = false }

unfoldable pub start : Monitor → Monitor
start m = record m { loops = m.loops + 1 }

-- `Stop`, behind its wait: each goroutine has found `stopChan` closed.
unfoldable pub stop : Monitor → Outcome Monitor
stop m = if m.stop_closed then panics else returns (record m { loops = 0; stop_closed = true })

-- What the select of `run` receives: the ticker, the end of the context, or the closed `stopChan`.
pub data Event : Type 0 where
  ticked : Time → Event
  cancelled stopped : Event

-- The loop of `run`: the store, and the sensors that were warned about, in order.
unfoldable pub run : MonitorConfig → List Event → StateStore → StateStore × List String
run config [] s = (s, [])
run config (cancelled ∷ events) s = (s, [])
run config (stopped ∷ events) s = (s, [])
run config (ticked now ∷ events) s =
    let (s', ids) = check_stale now config.stale_timeout s in
    let (s'', later) = run config events s' in (s'', ids ++ later)

-- How often the sensor is in the list.
unfoldable pub times : String → List String → ℕ
times k [] = 0
times k (j ∷ ids) = if str_eq j k then suc (times k ids) else times k ids

times-append : (k : String) (xs ys : List String) → times k (xs ++ ys) ≡ times k xs + times k ys
unfolding times
times-append k [] ys = omega arith
times-append k (x ∷ xs) ys = ground (arith, times-append k xs ys)

times-mark_all :
    (now : Time) (timeout : Duration) (m : Sensors) (k : String)
    → IsKeyed m
    → times k (mark_all now timeout m).1 ≡ (if newly now timeout (lookup k m) then 1 else 0)
unfolding times mark_all lookup
times-mark_all now timeout [] k d = refl
times-mark_all now timeout ((j, e) ∷ m) k d =
    ground (arith, times-mark_all now timeout m k d.2, str_eq_iff j k)

-- The sensor is not in the store or is stale.
abbrev pub settled : Option SensorEntry → Bool
settled none = true
settled (some e) = is_stale e.state.status

newly-settled :
    (now : Time) (timeout : Duration) (o : Option SensorEntry) (n : ℕ)
    → n ≤ (if settled (Option.map (λ e. (mark now timeout e).0) o) then 0 else 1)
    → (if newly now timeout o then 1 else 0) + n ≤ (if settled o then 0 else 1)
unfolding mark
newly-settled now timeout none n h = ground arith
newly-settled now timeout (some e) n h = ground arith

run-times :
    (config : MonitorConfig) (events : List Event) (s : StateStore) (k : String)
    → IsKeyed s.sensors
    → times k (run config events s).1 ≤ (if settled (lookup k s.sensors) then 0 else 1)
unfolding run times check_stale
run-times config [] s k d = ground arith
run-times config (cancelled ∷ events) s k d = ground arith
run-times config (stopped ∷ events) s k d = ground arith
run-times config (ticked now ∷ events) s k d =
    let m = s.sensors in
    let scanned = (check_stale now config.stale_timeout s).0 in
    let rest = run-times config events scanned k (mark_all-IsKeyed now config.stale_timeout m d) in
    let seen = rw (lookup-mark_all now config.stale_timeout k m) at rest in
    omega (
      arith,
      times-append k (mark_all now config.stale_timeout m).1 (run config events scanned).1,
      times-mark_all now config.stale_timeout m k d,
      newly-settled now config.stale_timeout (lookup k m) (times k (run config events scanned).1)
          seen,
    )

-- On the store after any log of calls, the monitor warns at most once about each sensor, whatever
-- it receives and as long as nobody else changes the store, and not at all about one that is stale
-- or not in the store.
pub run_warns_once :
    (config : MonitorConfig) (events : List Event) (log : List Call) (k : String)
    → (times k (run config events (after log)).1 ≤ 1)
      × (settled (lookup k (after log).sensors) ≡ true
          → times k (run config events (after log)).1 ≡ 0)
run_warns_once config events log k =
    let h = run-times config events (after log) k (after-IsKeyed log) in
    (ground (arith, h), λ e. ground (arith, h, e))
