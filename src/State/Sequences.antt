-- ===== src/State/Sequences.antt =====
-- The verdict on each sequence number and the counters of a sensor, after any log of calls.
use sentinelstream.Prelude.{
  ℕ, ◌+◌, ◌≤◌, ◌<◌, ◌≡◌, refl, sym, ◌∙◌, true, Option, none, some, List, [], ◌∷◌, String, arith,
  contains, lookup, u64_mod,
}
use sentinelstream.Clock.{Time, Duration}
use sentinelstream.Protocol.Types.{TelemetryMessage}
use sentinelstream.State.Store.{
  SensorEntry, UpdateResult, no_result, recent_seq_window, apply_message, update, mark,
}
use sentinelstream.State.Log.{Call, after, history, AreWords}
use sentinelstream.State.Window.{
  Tracks, highest, verdict, new_entry-Tracks, apply_message-Tracks, apply_message-verdict,
}
use sentinelstream.State.History.{IsKept, Agrees, after-Agrees, next_result, update-next_result}

-- Only a message touches what is tracked.
Tracks-same :
    {h : List ℕ} {e e' : SensorEntry}
    → e'.state.last_sequence ≡ e.state.last_sequence
    → e'.recent_seqs ≡ e.recent_seqs
    → Tracks h e
    → Tracks h e'
Tracks-same p q t = record {
  top = ground arith;
  received = ground (arith, t.received);
  word = ground arith;
  sound = λ s r. ground (arith, t.sound s);
  complete = λ s r near. ground (arith, t.complete s);
}

mark_same :
    (now : Time) (timeout : Duration) (e : SensorEntry)
    → ((mark now timeout e).0.state.last_sequence ≡ e.state.last_sequence)
      × ((mark now timeout e).0.recent_seqs ≡ e.recent_seqs)
unfolding mark
mark_same now timeout e = ground arith

Tracks-IsKept : IsKept Tracks
Tracks-IsKept = record {
  start = new_entry-Tracks;
  next = λ now seq h e w t. apply_message-Tracks now seq w t;
  error = λ h e t. Tracks-same refl refl t;
  anomaly = λ h e t. Tracks-same refl refl t;
  scan = λ now timeout h e t. let s = mark_same now timeout e in Tracks-same s.0 s.1 t;
}

-- After any log of calls a sensor from which nothing was received has no entry, and the entry of
-- any other has the greatest number received as its last sequence, remembers only numbers
-- received, and remembers each of those that lies at most 64 below the greatest.
pub after-Tracks :
    (log : List Call)
    → AreWords log
    → (k : String) → Agrees Tracks (history k log) (lookup k (after log).sensors)
after-Tracks = after-Agrees Tracks Tracks-IsKept

-- The result that a memory of all numbers received from the sensor would give.
unfoldable pub expected : List ℕ → ℕ → UpdateResult
unfolding verdict
expected [] seq = record no_result { is_new_sensor = true }
expected (x ∷ h) seq = verdict (x ∷ h) seq

expected_known : (h : List ℕ) (seq a : ℕ) → contains h a ≡ true → expected h seq ≡ verdict h seq
unfolding expected contains
expected_known [] seq a p = cc
expected_known (x ∷ h) seq a p = refl

next_result-expected :
    (now : Time) (msg : TelemetryMessage) (h : List ℕ) (o : Option SensorEntry)
    → msg.sequence < u64_mod
    → highest h ≤ msg.sequence + recent_seq_window
    → Agrees Tracks h o
    → next_result msg now o ≡ expected h msg.sequence
unfolding expected
next_result-expected now msg h none w near t = rw t
next_result-expected now msg h (some e) w near t =
    apply_message-verdict now msg.sequence w t near
    ∙ sym (expected_known h msg.sequence e.state.last_sequence t.received)

-- After any log of calls, `Update` finds for a number at most 64 below the greatest one received
-- from the sensor what a memory of all its numbers would find: a new sensor, a duplicate, the
-- length of the gap, or a late first arrival.
pub update-expected :
    (log : List Call) (now : Time) (msg : TelemetryMessage)
    → AreWords log
    → msg.sequence < u64_mod
    → highest (history msg.sensor_id log) ≤ msg.sequence + recent_seq_window
    → (update now msg (after log)).1 ≡ expected (history msg.sensor_id log) msg.sequence
update-expected log now msg ws w near =
    update-next_result now msg (after log)
    ∙ next_result-expected now msg _ _ w near (after-Tracks log ws msg.sensor_id)

-- A reported duplicate was received before, however old it is.
next_result_sound :
    (now : Time) (msg : TelemetryMessage) (h : List ℕ) (o : Option SensorEntry)
    → Agrees Tracks h o
    → (next_result msg now o).is_duplicate ≡ true
    → contains h msg.sequence ≡ true
unfolding apply_message
next_result_sound now msg h none t d = cc
next_result_sound now msg h (some e) t d = ground (arith, t.sound msg.sequence, t.received)

-- After any log of calls, a message that `Update` reports as a duplicate carries a number that was
-- received from the sensor before, however far behind the greatest it lies.
pub update_duplicate_sound :
    (log : List Call) (now : Time) (msg : TelemetryMessage)
    → AreWords log
    → (update now msg (after log)).1.is_duplicate ≡ true
    → contains (history msg.sensor_id log) msg.sequence ≡ true
update_duplicate_sound log now msg ws d =
    next_result_sound now msg _ _ (after-Tracks log ws msg.sensor_id)
      (rw (← update-next_result now msg (after log)) d)
