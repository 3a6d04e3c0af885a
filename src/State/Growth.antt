-- ===== src/State/Growth.antt =====
-- How many sequence numbers an entry remembers. They are pruned only when the greatest number
-- grows, so late messages make the set grow without limit in between.
use sentinelstream.Prelude.{
  ℕ, zero, suc, ◌+◌, ◌-◌, ◌≤◌, ◌<◌, ◌≡◌, refl, ◌∙◌, false, some, List, [], ◌∷◌, String, str_eq_iff,
  arith, length, contains, lookup, pos,
}
use sentinelstream.Protocol.Types.{TelemetryMessage}
use sentinelstream.State.Store.{SensorEntry, new_state_store, new_entry, apply_message}
use sentinelstream.State.Log.{Call, updates, step, after}
use sentinelstream.State.History.{lookup-update, next_entry}

-- A message of one sensor.
abbrev pub numbered : String → ℕ → TelemetryMessage
numbered k seq = record {
  sensor_id = k;
  sensor_type = "gps";
  sequence = seq;
  timestamp = pos 1;
  payload = [];
}

-- The numbers from `top` down to `top - n`, each received once.
unfoldable pub countdown : String → ℕ → ℕ → List Call
countdown k top zero = updates (pos 1) (numbered k top) ∷ []
countdown k top (suc n) = updates (pos 1) (numbered k (top - suc n)) ∷ countdown k top n

-- What the entry looks like on the way down.
record IsFull (top n : ℕ) (e : SensorEntry) : Type 0 where
  highest : e.state.last_sequence ≡ top
  size : length e.recent_seqs ≡ suc n
  fresh : (s : ℕ) → s + n < top → contains e.recent_seqs s ≡ false

apply_message-IsFull :
    (top n : ℕ) (e : SensorEntry)
    → suc n ≤ top
    → IsFull top n e
    → IsFull top (suc n) (apply_message (pos 1) (top - suc n) e).0
unfolding apply_message contains
apply_message-IsFull top n e h f = record {
  highest = ground (arith, f.fresh (top - suc n));
  size = ground (arith, f.fresh (top - suc n), f.size, f.highest);
  fresh = λ s p. ground (arith, f.fresh (top - suc n), f.fresh s, f.highest);
}

lookup-update_self :
    (k : String) (seq : ℕ) (log : List Call)
    → lookup k (after (updates (pos 1) (numbered k seq) ∷ log)).sensors
      ≡ some (next_entry (pos 1) (numbered k seq) (lookup k (after log).sensors))
unfolding after step
lookup-update_self k seq log =
    lookup-update (pos 1) (numbered k seq) (after log) k ∙ rw ((str_eq_iff k k).1 refl)

countdown-IsFull :
    (k : String) (top n : ℕ)
    → n ≤ top
    → (e : SensorEntry) × (lookup k (after (countdown k top n)).sensors ≡ some e) × IsFull top n e
unfolding countdown
countdown-IsFull k top zero h = (
  new_entry (pos 1) (numbered k top),
  unfold after new_state_store lookup in lookup-update_self k top [],
  unfold new_entry contains in record { highest = refl; size = refl; fresh = λ s p. ground arith },
)
countdown-IsFull k top (suc n) h =
    let (e, found, full) = countdown-IsFull k top n (omega arith) in
    (
      (apply_message (pos 1) (top - suc n) e).0,
      lookup-update_self k (top - suc n) (countdown k top n) ∙ rw found,
      apply_message-IsFull top n e h full,
    )

-- The set of remembered numbers has no bound but the range of sequence numbers: for every `n` up
-- to the first number sent there is a run of `n + 1` messages after which the entry remembers
-- `n + 1` numbers, however far they lie behind the window of 64.
pub countdown_grows :
    (k : String) (top n : ℕ)
    → n ≤ top
    → (e : SensorEntry) × (lookup k (after (countdown k top n)).sensors ≡ some e)
      × (length e.recent_seqs ≡ n + 1)
countdown_grows k top n h =
    let (e, found, full) = countdown-IsFull k top n h in (e, found, omega (arith, full.size))
