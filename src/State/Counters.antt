-- ===== src/State/Counters.antt =====
-- The counters of a sensor after any log of calls. They are `uint64` and may wrap: the equations
-- hold modulo 2^64.
use sentinelstream.Prelude.{
  ℕ, ◌+◌, ◌%◌, ◌<◌, ◌≡◌, refl, List, [], ◌∷◌, String, arith, lookup, length, u64_mod,
}
use sentinelstream.Clock.{Time}
use sentinelstream.State.Store.{SensorEntry, apply_message, new_entry, mark, prune_recent_seqs}
use sentinelstream.State.Log.{Call, after, history, AreWords}
use sentinelstream.State.History.{IsKept, Agrees, after-Agrees}

-- The number received first.
abbrev pub oldest : List ℕ → ℕ
oldest [] = 0
oldest (x ∷ []) = x
oldest (x ∷ y ∷ h) = oldest (y ∷ h)

pub record Balances (h : List ℕ) (e : SensorEntry) : Type 0 where
  pub known : h ≡ [] → ⊥
  pub word : e.state.last_sequence < u64_mod
  pub counted : e.state.message_count ≡ length h % u64_mod
  pub balanced :
      (e.state.message_count + e.state.dropped_count + oldest h) % u64_mod
      ≡ (e.state.last_sequence + 1 + e.state.duplicate_count + e.state.out_of_order_count) % u64_mod

apply_message-Balances :
    (now : Time) (seq : ℕ) (h : List ℕ) (e : SensorEntry)
    → seq < u64_mod
    → Balances h e
    → Balances (seq ∷ h) (apply_message now seq e).0
unfolding apply_message prune_recent_seqs
apply_message-Balances now seq [] e w b = absurd (b.known refl)
apply_message-Balances now seq (x ∷ h) e w b = record {
  known = λ p. ground arith;
  word = ground (arith, b.word);
  counted = ground (arith, b.counted);
  balanced = ground (arith, b.balanced, b.word);
}

Balances-IsKept : IsKept Balances
unfolding new_entry mark
Balances-IsKept = record {
  start = λ now msg w. record {
    known = λ p. ground arith;
    word = w;
    counted = ground arith;
    balanced = ground arith;
  };
  next = apply_message-Balances;
  error = λ h e b. record {
    known = b.known;
    word = b.word;
    counted = b.counted;
    balanced = b.balanced;
  };
  anomaly = λ h e b. record {
    known = b.known;
    word = b.word;
    counted = b.counted;
    balanced = b.balanced;
  };
  scan = λ now timeout h e b. record {
    known = b.known;
    word = ground (arith, b.word);
    counted = ground (arith, b.counted);
    balanced = ground (arith, b.balanced);
  };
}

-- After any log of calls the message count of a sensor is the number of its messages, and messages
-- plus dropped numbers, counted from the first number received, make up the way to the greatest
-- one plus the duplicates and the late arrivals (all modulo 2^64).
pub after-Balances :
    (log : List Call)
    → AreWords log
    → (k : String) → Agrees Balances (history k log) (lookup k (after log).sensors)
after-Balances = after-Agrees Balances Balances-IsKept
