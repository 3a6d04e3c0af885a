-- ===== src/State/Window.antt =====
-- The set `recentSeqs` and the high-water mark of one sensor, against the list of all sequence
-- numbers that came from it.
use sentinelstream.Prelude.{
  ℕ, ◌+◌, ◌-◌, ◌≤◌, ◌<◌, ◌≡◌, true, ◌||◌, List, [], ◌∷◌, arith, ltb, leb, ◌==◌, if◌then◌else◌,
  contains, contains-keep, u64_mod,
}
use sentinelstream.Clock.{Time}
use sentinelstream.State.Store.{
  SensorEntry, UpdateResult, no_result, remember, prune_recent_seqs, apply_message, new_entry,
  recent_seq_window,
}
use sentinelstream.Protocol.Types.{TelemetryMessage}

-- The greatest number of a list, 0 for the empty one.
unfoldable pub highest : List ℕ → ℕ
highest [] = 0
highest (x ∷ xs) = let m = highest xs in if ltb m x then x else m

pub contains-le-highest : (h : List ℕ) (s : ℕ) → contains h s ≡ true → s ≤ highest h
unfolding contains highest
contains-le-highest [] s p = cc
contains-le-highest (x ∷ h) s p = ground (arith, contains-le-highest h s)

contains-remember :
    (s : ℕ) (l : List ℕ) (a : ℕ) → contains (remember s l) a ≡ (a == s || contains l a)
unfolding contains
contains-remember s l a = ground arith

-- What the sequence numbers received so far, newest first, make of the entry.
pub record Tracks (h : List ℕ) (e : SensorEntry) : Type 0 where
  pub top : e.state.last_sequence ≡ highest h
  pub received : contains h e.state.last_sequence ≡ true
  pub word : e.state.last_sequence < u64_mod
  pub sound : (s : ℕ) → contains e.recent_seqs s ≡ true → contains h s ≡ true
  pub complete :
      (s : ℕ)
      → contains h s ≡ true
      → e.state.last_sequence ≤ s + recent_seq_window
      → contains e.recent_seqs s ≡ true

-- The verdict that a memory of all sequence numbers would give.
unfoldable pub verdict : List ℕ → ℕ → UpdateResult
verdict h seq =
    if contains h seq
    then record no_result { is_duplicate = true }
    else if ltb (highest h) seq
    then record no_result { dropped_count = seq - highest h - 1 }
    else record no_result { is_out_of_order = true }

pub new_entry-Tracks :
    (now : Time) (msg : TelemetryMessage)
    → msg.sequence < u64_mod
    → Tracks (msg.sequence ∷ []) (new_entry now msg)
unfolding new_entry contains highest
new_entry-Tracks now msg w = record {
  top = ground arith;
  received = ground arith;
  word = w;
  sound = λ s p. ground arith;
  complete = λ s p q. ground arith;
}

module _ (now : Time) (seq : ℕ) (w : seq < u64_mod) {h : List ℕ} {e : SensorEntry}
    (t : Tracks h e) where
  pub apply_message-verdict :
      highest h ≤ seq + recent_seq_window → (apply_message now seq e).1 ≡ verdict h seq
  unfolding apply_message verdict
  apply_message-verdict near =
      ground (arith, t.sound seq, t.complete seq, contains-le-highest h seq, t.received, t.top)

  pub apply_message-Tracks : Tracks (seq ∷ h) (apply_message now seq e).0
  unfolding apply_message prune_recent_seqs contains highest
  apply_message-Tracks = record {
    top = ground (arith, t.top);
    received = ground (arith, t.received);
    word = ground (arith, t.word);
    sound = λ s p. ground (
      arith,
      t.sound s,
      contains-keep (λ x. leb (seq - 64) x) (remember seq e.recent_seqs) s,
      contains-remember seq e.recent_seqs s,
    );
    complete = λ s p q. ground (
      arith,
      t.complete s,
      contains-keep (λ x. leb (seq - 64) x) (remember seq e.recent_seqs) s,
      contains-remember seq e.recent_seqs s,
      contains-le-highest h s,
      t.top,
    );
  }
