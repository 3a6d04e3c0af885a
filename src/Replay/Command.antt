-- ===== src/Replay/Command.antt =====
-- cmd/replay/main.go: a pool of its own, the player with `Enqueue` as its handler, and the report at the
-- end. Flags are parsed outside of the model, and what is printed is there by its values.
use sentinelstream.Prelude.{
  ℕ, Bool, true, Option, none, some, List, String, Result, Outcome, returns, panics, blocks, pos,
}
use sentinelstream.Clock.{Time, Duration, add_duration}
use sentinelstream.Protocol.Types.{TelemetryMessage}
use sentinelstream.State.Store.{new_state_store, count}
use sentinelstream.Processor.Pool.{
  Processor, ProcessorConfig, new_processor, start, enqueue, stop, stats, ProcessorStats, Reading,
  wait_for_quiescence,
}
use sentinelstream.Processor.Texts.{ProcessorText, processor_string}
use sentinelstream.Replay.Files.{ReplayError, replay}

-- `proc.Enqueue`, as far as the pool is not blocked and nothing has panicked.
unfoldable pub enqueue_from :
    Bool → TelemetryMessage → Outcome Processor → Outcome Processor × Option String
enqueue_from picks_send msg (returns p) = elim (enqueue picks_send (some msg) p) [
  | returns (p', e) ↦ (returns p', e)
  | panics ↦ (panics, none)
  | blocks ↦ (blocks, none)
]
enqueue_from picks_send msg panics = (panics, none)
enqueue_from picks_send msg blocks = (blocks, none)

pub data CommandEnd : Type 0 where
  not_started : String → CommandEnd
  replayed : Outcome Processor → ℕ → Option ReplayError → CommandEnd

-- The context is `context.Background()`, which is never done.
unfoldable pub replay_command :
    (List ℕ → Result String TelemetryMessage)
    → ProcessorConfig
    → Result String (List ℕ)
    → CommandEnd
replay_command unmarshal flags file =
    let (proc, started) = start (new_processor flags new_state_store) in
    elim started [
      | some e ↦ not_started e
      | none ↦
          let (p, count, e) =
            replay unmarshal (λ i. none) (enqueue_from true) file (returns proc) in
          replayed p count e
    ]

-- `10 * time.Second`
abbrev pub patience : Duration
patience = pos 10000000000

-- What is printed at the end, and what the deferred `Stop` gives.
pub record Report : Type 0 where
  pub warning : Option String
  pub replayed_events : ℕ
  pub processor : ProcessorText
  pub unique_sensors : ℕ
  pub stopped : Outcome (Processor × Option String)

-- `main` still waits after the readings, or `Stats` panics, or all is reported.
pub data Ending : Type 0 where
  waiting : Ending
  crashed : Ending
  reported : Report → Ending

-- `Stats`, and what is made of its result.
abbrev pub report_on : Processor → ℕ → Option String → Option ProcessorStats → Ending
report_on p n warning none = crashed
report_on p n warning (some s) = reported (record {
  warning = warning;
  replayed_events = n;
  processor = processor_string s;
  unique_sensors = count p.shared.store;
  stopped = stop p;
})

abbrev pub finish_wait : Processor → ℕ → Option (Option String) → Ending
finish_wait p n none = waiting
finish_wait p n (some warning) = report_on p n warning (stats p)

-- Behind a replay without an error, from the time `now` on: `p` is the pool once the wait is over.
unfoldable pub finish : Time → List Reading → Processor → ℕ → Ending
finish now readings p n = finish_wait p n (wait_for_quiescence (add_duration now patience) readings)
