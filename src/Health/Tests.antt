-- ===== src/Health/Tests.antt =====
-- A monitor that scans a store with one sensor.
use sentinelstream.Prelude.{◌≡◌, ◌≤◌, refl, true, List, [], ◌∷◌, pos, lookup}
use sentinelstream.State.Log.{Call, updates, after}
use sentinelstream.State.Growth.{numbered}
use sentinelstream.Health.{
  MonitorConfig, Event, ticked, stopped, new_monitor, run, times, settled, run_warns_once,
}

abbrev log : List Call
log = updates (pos 10) (numbered "gps-1" 1) ∷ []

abbrev config : MonitorConfig
config = record { stale_timeout = pos 6; check_interval = pos 2 }

abbrev events : List Event
events = ticked (pos 15) ∷ ticked (pos 20) ∷ ticked (pos 25) ∷ stopped ∷ []

new_monitor_test :
    new_monitor (record { stale_timeout = pos 0; check_interval = pos 2 })
    ≡ record { stale_timeout = pos 5000000000; check_interval = pos 2 }
unfolding new_monitor
new_monitor_test = refl

run_warns_once_example :
    (times "gps-1" (run config events (after log)).1 ≤ 1)
    × (settled (lookup "gps-1" (after log).sensors) ≡ true
        → times "gps-1" (run config events (after log)).1 ≡ 0)
run_warns_once_example = run_warns_once config events log "gps-1"
