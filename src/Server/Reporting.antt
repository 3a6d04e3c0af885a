-- ===== src/Server/Reporting.antt =====
-- What the server recorded is what the replay command reports.
use mathlib.Core.List.{reverse}
use sentinelstream.Prelude.{
  ℕ, suc, ◌≤◌, ◌%◌, u64_mod, ◌≡◌, refl, ap, ◌∙◌, Option, none, some, true, false, List, [], ◌∷◌,
  map, String, Result, ok, ℤ, pos, length, All, arith, returns, replicate,
}
use sentinelstream.Clock.{Time, add_duration}
use sentinelstream.Protocol.Types.{TelemetryMessage}
use sentinelstream.Protocol.Parser.{Codec}
use sentinelstream.State.Log.{after}
use sentinelstream.State.Store.{count}
use sentinelstream.Processor.Worker.{Worker, Shared, Readings, new_worker}
use sentinelstream.Processor.Pool.{
  Processor, Reading, ProcessorStats, new_processor, start, start_workers, stats, or_default, stop,
}
use sentinelstream.Processor.Handling.{
  process_all, process_all-IsSound, tally, is_fine, is_malformed, all_calls,
}
use sentinelstream.Processor.Outcomes.{is_invalid}
use sentinelstream.Processor.Lifecycle.{IsLive, stop_start}
use sentinelstream.Processor.Stats.{
  sum_of, new_workers, stats-IsSum, FindsEmpty, wait_for_quiescence_nil,
}
use sentinelstream.Processor.Texts.{processor_string}
use sentinelstream.Replay.Command.{
  replayed, replay_command, Report, reported, finish, finish_wait, report_on, patience,
}
use sentinelstream.Replay.Roundtrip.{IsRecordable, record_all}
use sentinelstream.Server.Forwarding.{queued, queued-IsLive, booted, booted-IsLive}
use sentinelstream.Server.Replaying.{replay_command-queued}

-- The workers behind the first one.
abbrev others : List (Option Worker) → List (Option Worker)
others [] = []
others (w ∷ ws) = ws

-- The pool once its first worker has emptied the queue.
abbrev pub worked_off : Shared → Worker → Processor → Processor
worked_off s w p = record p {
  shared = s;
  workers = some w ∷ others p.workers;
  jobs = record (p.jobs) { buffer = [] };
}

other_workers :
    (places : List (Option Worker))
    → (ws : List Worker) × (others (start_workers 0 places) ≡ map some ws)
      × ((f : Worker → ℕ) → ((id : ℕ) → f (new_worker id) ≡ 0) → sum_of f ws ≡ 0)
unfolding start_workers sum_of
other_workers [] = ([], refl, λ f z. refl)
other_workers (x ∷ places) = new_workers 1 places

-- The report on a pool that is at work with an empty queue.
finish-reported :
    (now : Time) (readings : List Reading) (p : Processor) (n : ℕ) (r : ProcessorStats)
    → FindsEmpty (add_duration now patience) readings
    → stats p ≡ some r
    → finish now readings p n
      ≡ reported (record {
        warning = none;
        replayed_events = n;
        processor = processor_string r;
        unique_sensors = count p.shared.store;
        stopped = stop p;
      })
unfolding finish
finish-reported now readings p n r f e =
    ap (finish_wait p n) ((wait_for_quiescence_nil (add_duration now patience) readings).1 f)
    ∙ ap (report_on p n none) e

worked_off-IsLive : (s : Shared) (w : Worker) (p : Processor) → IsLive p → IsLive (worked_off s w p)
worked_off-IsLive s w p v = record {
  running = v.running;
  open_stop = v.open_stop;
  open_jobs = v.open_jobs;
}

-- The messages, the newest first, with the readings of the clock at each of them.
abbrev pub recorded_of : List (Readings × TelemetryMessage) → List TelemetryMessage
recorded_of items = reverse (map (λ i. i.1) items)

-- What the report says of the messages.
pub record IsFaithful (codec : Codec) (items : List (Readings × TelemetryMessage)) (report : Report)
    : Type 0 where
  pub no_warning : report.warning ≡ none
  pub all_replayed : report.replayed_events ≡ length (recorded_of items)
  pub processed : report.processor.processed % u64_mod ≡ tally codec is_fine items % u64_mod
  pub errors : report.processor.errors % u64_mod ≡ tally codec is_malformed items % u64_mod
  pub anomalies : report.processor.anomalies % u64_mod ≡ tally codec is_invalid items % u64_mod
  pub nothing_left : report.processor.queue_depth ≡ 0
  pub sensors : report.unique_sensors ≡ count (after (all_calls codec items))
  pub stops : (q : Processor) × (report.stopped ≡ returns (q, none)) × (q.is_running ≡ false)

-- Let the replay command have a queue of a positive size that the recorded messages fit in, and no
-- worker take one before all are in the queue; let its first worker then handle all of them, in their
-- order, and `WaitForQuiescence` find the queue of the running pool empty, before its deadline. Then the
-- command replays all messages without an error and they are in the queue in the order in which they
-- were recorded; the worker does not panic; and the command prints no warning, and reports as many
-- events as were recorded, as processed, as errors and as anomalies those messages whose payload is
-- fine, malformed and invalid (modulo 2^64), an empty queue, and the sensors of the store that
-- the messages lead to; its `Stop` returns without an error. No write to the record file failed, and
-- each message is marshalled to a line that is not empty, shorter than a MiB, and read back as the message.
pub replay_command-reported :
    (marshal : TelemetryMessage → Result String (List ℕ))
    (unmarshal : List ℕ → Result String TelemetryMessage) (codec : Codec) (workers : ℤ) (size : ℕ)
    (items : List (Readings × TelemetryMessage)) (now : Time) (readings : List Reading)
    → length (recorded_of items) ≤ suc size
    → All (IsRecordable marshal unmarshal) (recorded_of items)
    → FindsEmpty (add_duration now patience) readings
    → (p : Processor) × (s : Shared) × (w : Worker) × (report : Report) × (replay_command unmarshal
          (record { num_workers = workers; queue_size = pos (suc size) })
          (ok (record_all marshal (recorded_of items) []))
        ≡ replayed (returns p) (length (recorded_of items)) none)
      × (p.jobs.buffer ≡ map some (recorded_of items))
      × (process_all codec items (p.shared, new_worker 0) ≡ some (s, w))
      × (finish now readings (worked_off s w p) (length (recorded_of items)) ≡ reported report)
      × IsFaithful codec items report
unfolding start new_processor sum_of new_worker
replay_command-reported marshal unmarshal codec workers size items now readings h v f =
    let (n, e) = replay_command-queued marshal unmarshal workers size (recorded_of items) h v in
    let p = queued (recorded_of items) n (booted workers size) in
    let (s, w, handled, sound) = process_all-IsSound codec 0 items in
    let q = worked_off s w p in
    let (ws, rest, none_counted) = other_workers (replicate (or_default workers 4) none) in
    let (r, counted, sums, depth) = stats-IsSum q (w ∷ ws) (ap (◌∷◌ (some w)) rest) in
    let (stopped, again, stops, ended, twice, refused, refuses) = stop_start q none true (
      worked_off-IsLive s w p
        (queued-IsLive (recorded_of items) n (booted workers size) (booted-IsLive workers size))) in
    (
      p,
      s,
      w,
      _,
      e,
      refl,
      handled,
      finish-reported now readings q (length (recorded_of items)) r f counted,
      record {
        no_warning = refl;
        all_replayed = refl;
        processed = omega (
          arith,
          sums.processed,
          sound.processed,
          none_counted (λ x. x.messages_processed) (λ id. refl),
        );
        errors =
            omega (arith, sums.errors, sound.failed, none_counted (λ x. x.errors) (λ id. refl));
        anomalies =
            omega
              (arith, sums.anomalies, sound.strange, none_counted (λ x. x.anomalies) (λ id. refl));
        nothing_left = depth;
        sensors = ap count sound.stored;
        stops = (stopped, stops, ended);
      },
    )
