-- ===== src/Processor/Pool.antt =====
-- internal/processor/processor.go: the pool's operations, each run without interruption. How they
-- interleave is the matter of `System`.
use sentinelstream.Prelude.{
  ℕ, suc, Bool, true, false, not, ◌&&◌, ◌||◌, Option, none, some, List, [], ◌∷◌, String,
  if◌then◌else◌, leb_ℤ, ℤ, pos, pos_part, length, replicate, add64, Outcome, returns, panics,
  blocks, then_do, Channel, make, has_room, send, close, ◌==◌,
}
use sentinelstream.Prelude.Panic.{◌>>=◌}
use sentinelstream.Clock.{Time, is_after}
use sentinelstream.Protocol.Types.{TelemetryMessage}
use sentinelstream.State.Store.{StateStore, count}
use sentinelstream.Metrics.Latency.{Snapshot, new_latency_recorder, snapshot}
use sentinelstream.Processor.Worker.{Worker, Shared, new_worker}

pub record ProcessorConfig : Type 0 where
  pub num_workers : ℤ
  pub queue_size : ℤ

-- A worker is nil until `Start`; a message is a pointer that may be nil. `stop_closed` says that
-- `stopChan` is closed; nothing is ever sent there.
pub record Processor : Type 0 where
  pub config : ProcessorConfig
  pub shared : Shared
  pub workers : List (Option Worker)
  pub jobs : Channel (Option TelemetryMessage)
  pub stop_closed : Bool
  pub is_running : Bool
  pub total_messages_enqueued : ℕ
  pub queue_full_events : ℕ

abbrev pub or_default : ℤ → ℕ → ℕ
or_default n default = if leb_ℤ n (pos 0) then default else pos_part n

unfoldable pub new_processor : ProcessorConfig → StateStore → Processor
new_processor config store =
    let num_workers = or_default config.num_workers 4 in
    let queue_size = or_default config.queue_size 1000 in
    record {
      config = record { num_workers = pos num_workers; queue_size = pos queue_size };
      shared = record {
        store = store;
        processing_latency = new_latency_recorder (pos 0);
        end_to_end_latency = new_latency_recorder (pos 0);
      };
      workers = replicate num_workers none;
      jobs = make queue_size;
      stop_closed = false;
      is_running = false;
      total_messages_enqueued = 0;
      queue_full_events = 0;
    }

-- The loop of `Start`: a new worker in each place.
unfoldable pub start_workers : ℕ → List (Option Worker) → List (Option Worker)
start_workers i [] = []
start_workers i (w ∷ ws) = some (new_worker i) ∷ start_workers (suc i) ws

-- The error is a text; `none` is nil.
unfoldable pub start : Processor → Processor × Option String
start p =
    if p.is_running
    then (p, some "processor already running")
    else (record p { is_running = true; workers = start_workers 0 p.workers }, none)

-- The steps of `Stop` behind its first test, up to the wait for the workers.
abbrev pub stop_mark : Processor → Processor
stop_mark p = record p { is_running = false }

abbrev pub stop_signal : Processor → Outcome Processor
stop_signal p = if p.stop_closed then panics else returns (record p { stop_closed = true })

abbrev pub stop_close : Processor → Outcome Processor
stop_close p = elim (close p.jobs) [
  | returns jobs ↦ returns (record p { jobs = jobs })
  | panics ↦ panics
  | blocks ↦ blocks
]

unfoldable pub stop : Processor → Outcome (Processor × Option String)
unfolding close
stop p =
    if p.is_running
    then then_do (stop_signal (stop_mark p)) (λ q. then_do (stop_close q) (λ r. returns (r, none)))
    else returns (p, none)

-- `p.jobsChan <- msg`
abbrev pub put : Option TelemetryMessage → Processor → Outcome (Processor × Option String)
put msg p = elim (send msg p.jobs) [
  | returns jobs ↦ returns (record p { jobs = jobs }, none)
  | panics ↦ panics
  | blocks ↦ blocks
]

-- `p.totalMessagesEnqueued.Add(1)`
abbrev pub count_enqueued : Processor → Processor
count_enqueued p = record p { total_messages_enqueued = add64 p.total_messages_enqueued 1 }

-- The send and the count behind it.
abbrev pub deliver : Option TelemetryMessage → Processor → Outcome (Processor × Option String)
deliver msg p = elim (send msg p.jobs) [
  | returns jobs ↦ returns (count_enqueued (record p { jobs = jobs }), none)
  | panics ↦ panics
  | blocks ↦ blocks
]

-- What a `select` does with the message when it picks the send: `put`, or `deliver` where nothing
-- comes between the send and the count.
abbrev pub Sending : Type 0
Sending = Option TelemetryMessage → Processor → Outcome (Processor × Option String)

-- The `select` of `Enqueue`. A send on a closed channel is ready, and panics. Where both cases are
-- ready Go picks one: `picks_send` is its choice.
abbrev pub enqueue_select :
    Sending → Bool → Option TelemetryMessage → Processor → Outcome (Processor × Option String)
enqueue_select sending picks_send msg p =
    if (p.jobs.closed || has_room p.jobs) && (not p.stop_closed || picks_send)
    then sending msg p
    else if p.stop_closed
    then returns (p, some "processor stopping")
    else blocks

unfoldable pub select_enqueue :
    Bool → Option TelemetryMessage → Processor → Outcome (Processor × Option String)
unfolding send
select_enqueue = enqueue_select deliver

unfoldable pub enqueue :
    Bool → Option TelemetryMessage → Processor → Outcome (Processor × Option String)
unfolding select_enqueue
enqueue picks_send msg p =
    if p.is_running
    then select_enqueue picks_send msg p
    else returns (p, some "processor not running")

-- The `select` of `TryEnqueue`. In the default case a nil message is dereferenced for the log line.
abbrev pub try_enqueue_select :
    Sending → Option TelemetryMessage → Processor → Outcome (Processor × Option String)
try_enqueue_select sending msg p =
    if p.jobs.closed || has_room p.jobs then sending msg p else (elim msg [
      | none ↦ panics
      | some m ↦
          returns (record p { queue_full_events = add64 p.queue_full_events 1 }, some "queue full")
    ])

unfoldable pub try_enqueue :
    Option TelemetryMessage → Processor → Outcome (Processor × Option String)
unfolding send
try_enqueue msg p =
    if p.is_running
    then try_enqueue_select deliver msg p
    else returns (p, some "processor not running")

pub record Totals : Type 0 where
  pub processed : ℕ
  pub errors : ℕ
  pub anomalies : ℕ
  pub dropped : ℕ
  pub duplicates : ℕ
  pub out_of_order : ℕ

abbrev pub no_totals : Totals
no_totals = record {
  processed = 0;
  errors = 0;
  anomalies = 0;
  dropped = 0;
  duplicates = 0;
  out_of_order = 0;
}

-- The loop of `Stats`, from the totals so far; `none` is the panic at a nil worker.
unfoldable pub add_up : Totals → List (Option Worker) → Option Totals
add_up t [] = some t
add_up t (none ∷ ws) = none
add_up t (some w ∷ ws) =
    add_up
      (record {
        processed = add64 t.processed w.messages_processed;
        errors = add64 t.errors w.errors;
        anomalies = add64 t.anomalies w.anomalies;
        dropped = add64 t.dropped w.dropped;
        duplicates = add64 t.duplicates w.duplicates;
        out_of_order = add64 t.out_of_order w.out_of_order;
      })
      ws

-- `WorkerStats` are the workers' counters.
pub record ProcessorStats : Type 0 where
  pub num_workers : ℤ
  pub queue_size : ℤ
  pub queue_depth : ℕ
  pub total_messages_enqueued : ℕ
  pub totals : Totals
  pub known_sensors : ℕ
  pub queue_full_events : ℕ
  pub is_running : Bool
  pub worker_stats : List (Option Worker)
  pub processing_latency : Snapshot
  pub end_to_end_latency : Snapshot

-- The literal that `Stats` returns.
abbrev pub report : Processor → Totals → Snapshot → Snapshot → ProcessorStats
report p totals processing end_to_end = record {
  num_workers = p.config.num_workers;
  queue_size = p.config.queue_size;
  queue_depth = length p.jobs.buffer;
  total_messages_enqueued = p.total_messages_enqueued;
  totals = totals;
  known_sensors = count p.shared.store;
  queue_full_events = p.queue_full_events;
  is_running = p.is_running;
  worker_stats = p.workers;
  processing_latency = processing;
  end_to_end_latency = end_to_end;
}

unfoldable pub stats : Processor → Option ProcessorStats
unfolding add_up
stats p = do
  totals ← add_up no_totals p.workers
  processing ← snapshot p.shared.processing_latency
  end_to_end ← snapshot p.shared.end_to_end_latency
  some (report p totals processing end_to_end)

-- What one round of `WaitForQuiescence` reads.
pub record Reading : Type 0 where
  pub running : Bool
  pub depth : ℕ
  pub at : Time

-- The loop, over the rounds that it makes; `none` means that it still waits after them.
unfoldable pub wait_for_quiescence : Time → List Reading → Option (Option String)
wait_for_quiescence deadline [] = none
wait_for_quiescence deadline (r ∷ rs) =
    if not r.running
    then some (some "processor not running")
    else if r.depth == 0
    then some none
    else if is_after r.at deadline
    then some (some "timeout waiting for queue to empty")
    else wait_for_quiescence deadline rs
