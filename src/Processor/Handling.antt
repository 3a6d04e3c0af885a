-- ===== src/Processor/Handling.antt =====
-- One worker that handles messages one after another: how it counts them, and what the store
-- makes of them.
use sentinelstream.Prelude.{
  ℕ, suc, ◌%◌, ◌≡◌, refl, ◌∙◌, ap, Bool, true, false, add64, if◌then◌else◌, Option, none, some,
  List, [], ◌∷◌, ◌++◌, arith, u64_mod, pos, String,
}
use sentinelstream.Prelude.Panic.{◌>>=◌}
use sentinelstream.Clock.{Time, elapsed}
use sentinelstream.Protocol.Types.{TelemetryMessage}
use sentinelstream.Protocol.Parser.{Codec, ParseError, malformed, invalid}
use sentinelstream.State.Log.{Call, updates, errors, anomalies, after, step}
use sentinelstream.State.Store.{StateStore, UpdateResult, update, new_state_store}
use sentinelstream.Processor.Worker.{
  Worker, new_worker, Shared, Readings, check_payload, note_result, note_outcome, process_message,
}
use sentinelstream.Processor.Outcomes.{is_invalid}
use sentinelstream.Metrics.Latency.{new_latency_recorder}
use sentinelstream.Metrics.History.{new-IsValid}
use sentinelstream.Metrics.Ring.{IsValid, recorded, record_sample-recorded, recorded-IsValid}

-- The calls that one message makes of the store, the newest first.
abbrev pub calls_of : Time → TelemetryMessage → Option ParseError → List Call
calls_of now msg none = updates now msg ∷ []
calls_of now msg (some (invalid e)) = anomalies msg.sensor_id ∷ updates now msg ∷ []
calls_of now msg (some (malformed context e)) = errors msg.sensor_id ∷ updates now msg ∷ []

abbrev pub is_fine : Option ParseError → Bool
is_fine none = true
is_fine (some e) = false

abbrev pub is_malformed : Option ParseError → Bool
is_malformed none = false
is_malformed (some (malformed context e)) = true
is_malformed (some (invalid e)) = false

module _ (codec : Codec) where
  -- The messages are handled one after another; the list has the newest first.
  unfoldable pub process_all :
      List (Readings × TelemetryMessage) → Shared × Worker → Option (Shared × Worker)
  process_all [] s = some s
  process_all ((at, msg) ∷ items) s = process_all items s >>= process_message codec at msg

  -- All calls that the messages make of the store.
  unfoldable pub all_calls : List (Readings × TelemetryMessage) → List Call
  all_calls [] = []
  all_calls ((at, msg) ∷ items) =
      calls_of at.updated msg (check_payload codec msg) ++ all_calls items

  -- How many of the messages have an outcome.
  unfoldable pub tally : (Option ParseError → Bool) → List (Readings × TelemetryMessage) → ℕ
  tally p [] = 0
  tally p ((at, msg) ∷ items) =
      if p (check_payload codec msg) then suc (tally p items) else tally p items

-- The worker and the shared state after the messages.
pub record IsSound (codec : Codec) (items : List (Readings × TelemetryMessage)) (s : Shared)
    (w : Worker) : Type 0 where
  pub processing : IsValid s.processing_latency
  pub end_to_end : IsValid s.end_to_end_latency
  pub stored : s.store ≡ after (all_calls codec items)
  pub processed : w.messages_processed ≡ tally codec is_fine items % u64_mod
  pub failed : w.errors ≡ tally codec is_malformed items % u64_mod
  pub strange : w.anomalies ≡ tally codec is_invalid items % u64_mod

note_outcome_store :
    (now : Time) (msg : TelemetryMessage) (o : Option ParseError) (log : List Call) (w : Worker)
    → (note_outcome msg.sensor_id o (update now msg (after log)).0 w).0
      ≡ after (calls_of now msg o ++ log)
unfolding note_outcome after step
note_outcome_store now msg none log w = refl
note_outcome_store now msg (some (invalid e)) log w = refl
note_outcome_store now msg (some (malformed context e)) log w = refl

-- A counter that grows by one with the outcomes that it counts.
abbrev counts : Bool → ℕ → ℕ
counts b n = if b then add64 n 1 else n

note_outcome_counters :
    (id : String) (o : Option ParseError) (store : StateStore) (result : UpdateResult) (w : Worker)
    → let w' = (note_outcome id o store (note_result result w)).1 in
      (w'.messages_processed ≡ counts (is_fine o) w.messages_processed)
      × (w'.errors ≡ counts (is_malformed o) w.errors)
      × (w'.anomalies ≡ counts (is_invalid o) w.anomalies)
unfolding note_outcome note_result
note_outcome_counters id none store result w = (refl, refl, refl)
note_outcome_counters id (some (invalid e)) store result w = (refl, refl, refl)
note_outcome_counters id (some (malformed context e)) store result w = (refl, refl, refl)

counts-tally :
    (b : Bool) (c n : ℕ) → c ≡ n % u64_mod → counts b c ≡ (if b then suc n else n) % u64_mod
counts-tally true c n e = omega arith
counts-tally false c n e = e

module _ (codec : Codec) (at : Readings) (msg : TelemetryMessage)
    (items : List (Readings × TelemetryMessage)) (s : Shared) (w : Worker)
    (v : IsSound codec items s w) where
  abbrev outcome : Option ParseError
  outcome = check_payload codec msg

  abbrev next_worker : Worker
  next_worker =
      let (store, result) = update at.updated msg s.store in
      (note_outcome msg.sensor_id outcome store (note_result result w)).1

  abbrev next_shared : Shared
  next_shared =
      let (store, result) = update at.updated msg s.store in
      record {
        store = (note_outcome msg.sensor_id outcome store (note_result result w)).0;
        processing_latency = recorded (elapsed at.processed at.start) s.processing_latency;
        end_to_end_latency = recorded (elapsed at.delivered msg.timestamp) s.end_to_end_latency;
      }

  process_message_next : process_message codec at msg (s, w) ≡ some (next_shared, next_worker)
  unfolding process_message
  process_message_next =
      rw (record_sample-recorded _ _ v.processing, record_sample-recorded _ _ v.end_to_end)

  next-IsSound : IsSound codec ((at, msg) ∷ items) next_shared next_worker
  unfolding all_calls tally
  next-IsSound =
      let (store, result) = update at.updated msg s.store in
      let counters = note_outcome_counters msg.sensor_id outcome store result w in
      record {
        processing = recorded-IsValid _ _ v.processing;
        end_to_end = recorded-IsValid _ _ v.end_to_end;
        stored =
            ap
              (λ (st : StateStore).
                let (new, found) = update at.updated msg st in
                (note_outcome msg.sensor_id outcome new (note_result found w)).0)
              v.stored
            ∙ note_outcome_store at.updated msg outcome (all_calls codec items) _;
        processed = counters.0 ∙ counts-tally (is_fine outcome) _ _ v.processed;
        failed = counters.1 ∙ counts-tally (is_malformed outcome) _ _ v.failed;
        strange = counters.2 ∙ counts-tally (is_invalid outcome) _ _ v.strange;
      }

-- The state of a new processor with its worker `id`.
abbrev pub fresh : Shared
fresh = record {
  store = new_state_store;
  processing_latency = new_latency_recorder (pos 0);
  end_to_end_latency = new_latency_recorder (pos 0);
}

fresh-IsSound : (codec : Codec) (id : ℕ) → IsSound codec [] fresh (new_worker id)
unfolding all_calls tally new_worker after new_latency_recorder
fresh-IsSound codec id = record {
  processing = new-IsValid (pos 0);
  end_to_end = new-IsValid (pos 0);
  stored = refl;
  processed = refl;
  failed = refl;
  strange = refl;
}

-- A worker that starts fresh handles any messages without a panic. It counts each of them once:
-- as processed if its payload is fine, as an error if it is malformed, as an anomaly if it is
-- invalid (modulo 2^64). The store is then the one after `Update` for each message, followed by
-- `RecordError` for each error and `RecordAnomaly` for each anomaly.
pub process_all-IsSound :
    (codec : Codec) (id : ℕ) (items : List (Readings × TelemetryMessage))
    → (s : Shared) × (w : Worker) × (process_all codec items (fresh, new_worker id) ≡ some (s, w))
      × IsSound codec items s w
unfolding process_all
process_all-IsSound codec id [] = (fresh, new_worker id, refl, fresh-IsSound codec id)
process_all-IsSound codec id ((at, msg) ∷ items) =
    let (s, w, e, v) = process_all-IsSound codec id items in
    (
      next_shared codec at msg items s w v,
      next_worker codec at msg items s w v,
      rw e (process_message_next codec at msg items s w v),
      next-IsSound codec at msg items s w v,
    )
