-- ===== src/Server/Traffic.antt =====
-- cmd/server/main.go at work: the forwarders of the two listeners, who feeds and drains them, and the
-- deferred calls at the end of `main`, in any order of their steps. A listener is seen by its channel
-- of messages, which its `Stop` closes; the waits inside the `Stop`s are left out.
pub mod Counts
pub mod Balance
pub mod States
pub mod Recording
pub mod Races
use sentinelstream.Prelude.{
  ℕ, ◌≡◌, Bool, true, false, Option, none, some, List, [], ◌∷◌, String, Result, Outcome, returns,
  panics, Channel, send, close,
}
use sentinelstream.Protocol.Types.{TelemetryMessage}
use sentinelstream.Processor.Pool.{Processor, select_enqueue, stop}
use sentinelstream.Replay.Files.{WriteFailure, RecordError, record_event}

-- The two listeners, each with its forwarder.
pub data Side : Type 0 where
  udp tcp : Side

abbrev pub update {ℓ} : {A : Type ℓ} → Side → A → (Side → A) → Side → A
update udp x f udp = x
update udp x f tcp = f tcp
update tcp x f udp = f udp
update tcp x f tcp = x

-- Where a forwarder stands: at `range`, before `recorder.Record`, before the test of `proc.Enqueue`,
-- before its select, or behind its loop.
pub data Hand : Type 0 where
  idle : Hand
  recording testing selecting : TelemetryMessage → Hand
  left : Hand

-- How far the deferred calls are: none is made yet, or the last one made is the one named.
pub data Stage : Type 0 where
  serving recorder_closed api_stopped tcp_stopped udp_stopped monitor_stopped proc_stopped : Stage

-- `failed`, `taken`, `written`, `missed`, `accepted` and `refused` are no part of the program: they say
-- whether a `Record` has failed before the recorder was closed, and which messages the forwarders took,
-- which `Record` wrote and which it did not, and which `Enqueue` took and which it refused, the newest
-- first.
pub record Live : Type 0 where
  pub inputs : Side → Channel TelemetryMessage
  pub hands : Side → Hand
  pub file : List ℕ
  pub file_open : Bool
  pub proc : Processor
  pub stage : Stage
  pub crashed : Bool
  pub failed : Bool
  pub taken : List TelemetryMessage
  pub written : List TelemetryMessage
  pub missed : List TelemetryMessage
  pub accepted : List TelemetryMessage
  pub refused : List TelemetryMessage

module _ (marshal : TelemetryMessage → Result String (List ℕ)) where
  pub data Step (s : Live) : Live → Type 0 where
    -- A listener sends a message into its channel, and its forwarder receives it.
    arrive :
        (side : Side) (msg : TelemetryMessage) (ch : Channel TelemetryMessage)
        → s.crashed ≡ false
        → send msg (s.inputs side) ≡ returns ch
        → Step s (record s { inputs = update side ch s.inputs })
    take :
        (side : Side) (msg : TelemetryMessage) (rest : List TelemetryMessage)
        → s.crashed ≡ false
        → s.hands side ≡ idle
        → (s.inputs side).buffer ≡ msg ∷ rest
        → Step s (record s {
          inputs = update side (record (s.inputs side) { buffer = rest }) s.inputs;
          hands = update side (recording msg) s.hands;
          taken = msg ∷ s.taken;
        })
    -- The message is recorded; or the recorder fails, or is closed already.
    write_well :
        (side : Side) (msg : TelemetryMessage) (file : List ℕ)
        → s.crashed ≡ false
        → s.hands side ≡ recording msg
        → s.file_open ≡ true
        → record_event marshal none msg s.file ≡ (file, none)
        → Step s (record s {
          hands = update side (testing msg) s.hands;
          file = file;
          written = msg ∷ s.written;
        })
    write_badly :
        (side : Side) (msg : TelemetryMessage) (failure : WriteFailure) (file : List ℕ)
        (e : RecordError)
        → s.crashed ≡ false
        → s.hands side ≡ recording msg
        → s.file_open ≡ true
        → record_event marshal failure msg s.file ≡ (file, some e)
        → Step s (record s {
          hands = update side (testing msg) s.hands;
          file = file;
          failed = true;
          missed = msg ∷ s.missed;
        })
    write_late :
        (side : Side) (msg : TelemetryMessage)
        → s.crashed ≡ false
        → s.hands side ≡ recording msg
        → s.file_open ≡ false
        → Step s (record s { hands = update side (testing msg) s.hands; missed = msg ∷ s.missed })
    -- `Enqueue` tests whether the processor runs,
    pass :
        (side : Side) (msg : TelemetryMessage)
        → s.crashed ≡ false
        → s.hands side ≡ testing msg
        → s.proc.is_running ≡ true
        → Step s (record s { hands = update side (selecting msg) s.hands })
    turn_away :
        (side : Side) (msg : TelemetryMessage)
        → s.crashed ≡ false
        → s.hands side ≡ testing msg
        → s.proc.is_running ≡ false
        → Step s (record s { hands = update side idle s.hands; refused = msg ∷ s.refused })
    -- and comes through its select, or panics.
    accept :
        (side : Side) (msg : TelemetryMessage) (pick : Bool) (p : Processor)
        → s.crashed ≡ false
        → s.hands side ≡ selecting msg
        → select_enqueue pick (some msg) s.proc ≡ returns (p, none)
        → Step s
            (record s { hands = update side idle s.hands; proc = p; accepted = msg ∷ s.accepted })
    refuse :
        (side : Side) (msg : TelemetryMessage) (pick : Bool) (p : Processor) (e : String)
        → s.crashed ≡ false
        → s.hands side ≡ selecting msg
        → select_enqueue pick (some msg) s.proc ≡ returns (p, some e)
        → Step s
            (record s { hands = update side idle s.hands; proc = p; refused = msg ∷ s.refused })
    crash :
        (side : Side) (msg : TelemetryMessage) (pick : Bool)
        → s.crashed ≡ false
        → s.hands side ≡ selecting msg
        → select_enqueue pick (some msg) s.proc ≡ panics
        → Step s (record s { crashed = true })
    -- The channel is closed and empty: the forwarder ends.
    leave :
        (side : Side)
        → s.crashed ≡ false
        → s.hands side ≡ idle
        → (s.inputs side).closed ≡ true
        → (s.inputs side).buffer ≡ []
        → Step s (record s { hands = update side left s.hands })
    -- A worker takes a job.
    work :
        (job : Option TelemetryMessage) (rest : List (Option TelemetryMessage))
        → s.crashed ≡ false
        → s.proc.jobs.buffer ≡ job ∷ rest
        → Step s
            (record s { proc = record (s.proc) { jobs = record (s.proc.jobs) { buffer = rest } } })
    -- The deferred calls, the last one first.
    close_recorder :
        s.crashed ≡ false
        → s.stage ≡ serving
        → Step s (record s { file_open = false; stage = recorder_closed })
    stop_api :
        s.crashed ≡ false → s.stage ≡ recorder_closed → Step s (record s { stage = api_stopped })
    stop_tcp :
        (ch : Channel TelemetryMessage)
        → s.crashed ≡ false
        → s.stage ≡ api_stopped
        → close (s.inputs tcp) ≡ returns ch
        → Step s (record s { inputs = update tcp ch s.inputs; stage = tcp_stopped })
    stop_udp :
        (ch : Channel TelemetryMessage)
        → s.crashed ≡ false
        → s.stage ≡ tcp_stopped
        → close (s.inputs udp) ≡ returns ch
        → Step s (record s { inputs = update udp ch s.inputs; stage = udp_stopped })
    stop_monitor :
        s.crashed ≡ false → s.stage ≡ udp_stopped → Step s (record s { stage = monitor_stopped })
    stop_proc :
        (p : Processor) (e : Option String)
        → s.crashed ≡ false
        → s.stage ≡ monitor_stopped
        → stop s.proc ≡ returns (p, e)
        → Step s (record s { proc = p; stage = proc_stopped })

  pub data Reach (s : Live) : Live → Type 0 where
    here : Reach s s
    next : {t u : Live} → Reach s t → Step t u → Reach s u
