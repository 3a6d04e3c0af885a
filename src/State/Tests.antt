-- ===== src/State/Tests.antt =====
-- Runs of the store on concrete messages, and the theorems at them.
use sentinelstream.Prelude.{
  ◌≡◌, refl, ◌↔◌, ◌⊎◌, true, some, List, [], ◌∷◌, pos, contains, lookup, adjust, insert, arith,
  ◌<ℤ◌, ◌&&◌, not, length,
}
use sentinelstream.Clock.{elapsed}
use sentinelstream.State.Store.{
  SensorEntry, SensorState, no_result, update, check_stale, get, new_state_store, record_error,
  new_entry, apply_message, prune_recent_seqs, mark, mark_all, is_stale, healthy,
}
use sentinelstream.State.Log.{Call, updates, errors, after, step, history}
use sentinelstream.State.Window.{Tracks, highest}
use sentinelstream.State.History.{Agrees}
use sentinelstream.State.Sequences.{expected, after-Tracks, update-expected, update_duplicate_sound}
use sentinelstream.State.Counters.{Balances, after-Balances}
use sentinelstream.State.Marks.{SameButStatus, reports, check_stale_exact}
use sentinelstream.State.Growth.{numbered, countdown, countdown_grows}

-- Numbers 1, 2, 5 and 3 of one sensor, and 3 of another.
abbrev received : List Call
received =
    updates (pos 14) (numbered "gps-2" 3)
    ∷ updates (pos 13) (numbered "gps-1" 3)
    ∷ errors "gps-1"
    ∷ updates (pos 12) (numbered "gps-1" 5)
    ∷ updates (pos 11) (numbered "gps-1" 2)
    ∷ updates (pos 10) (numbered "gps-1" 1)
    ∷ []

program : Unit {0}
unfolding new_state_store record_error adjust insert update apply_message prune_recent_seqs
    new_entry mark mark_all check_stale get after step history highest contains lookup expected
program = tt

abbrev state_of_gps_1 : SensorState
state_of_gps_1 = record {
  sensor_id = "gps-1";
  sensor_type = "gps";
  status = healthy;
  last_sequence = 5;
  first_seen = pos 10;
  last_seen = pos 13;
  message_count = 4;
  dropped_count = 2;
  duplicate_count = 0;
  out_of_order_count = 1;
  error_count = 1;
  anomaly_count = 0;
}

get_test : get "gps-1" (after received) ≡ some state_of_gps_1
unfolding program
get_test = refl

update-expected_example :
    (update (pos 15) (numbered "gps-1" 4) (after received)).1
    ≡ expected (history "gps-1" received) 4
unfolding program
update-expected_example =
    update-expected received (pos 15) (numbered "gps-1" 4) (omega arith) (omega arith) (omega arith)

expected_test : expected (history "gps-1" received) 4 ≡ record no_result { is_out_of_order = true }
unfolding program
expected_test = refl

update_duplicate_sound_example : contains (history "gps-1" received) 2 ≡ true
unfolding program
update_duplicate_sound_example =
    update_duplicate_sound received (pos 15) (numbered "gps-1" 2) (omega arith) refl

after-Tracks_example :
    Agrees Tracks (history "gps-1" received) (lookup "gps-1" (after received).sensors)
after-Tracks_example = after-Tracks received (omega arith) "gps-1"

after-Balances_example :
    Agrees Balances (history "gps-1" received) (lookup "gps-1" (after received).sensors)
after-Balances_example = after-Balances received (omega arith) "gps-1"

check_stale_exact_example :
    let (s', ids) = check_stale (pos 20) (pos 6) (after received) in
    (st' : SensorState) × (get "gps-1" s' ≡ some st')
    × SameButStatus state_of_gps_1 st'
    × ((is_stale st'.status ≡ true)
        ↔ ((is_stale healthy ≡ true) ⊎ (pos 6 <ℤ elapsed (pos 20) (pos 13))))
    × (reports ids "gps-1" ≡ (is_stale st'.status && not (is_stale healthy)))
unfolding program
check_stale_exact_example = check_stale_exact received (pos 20) (pos 6) "gps-1" state_of_gps_1 refl

countdown_grows_example :
    (e : SensorEntry) × (lookup "gps-1" (after (countdown "gps-1" 1000 200)).sensors ≡ some e)
    × (length e.recent_seqs ≡ 201)
countdown_grows_example = countdown_grows "gps-1" 1000 200 (omega arith)
