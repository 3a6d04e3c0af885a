-- ===== src/Server.antt =====
-- cmd/server/main.go: the parts that the server starts, and what it does with a message of a
-- listener. Flags are parsed and signals awaited outside of the model, and the REST API is in
-- the module Api; a service is there by its state, the monitor by its configuration.
pub mod Forwarding
pub mod Replaying
pub mod Reporting
pub mod Booting
pub mod Printing
pub mod Traffic
pub mod Lifecycle
mod Tests
use sentinelstream.Prelude.{
  ℕ, ◌<◌, Bool, Option, none, some, List, [], ◌∷◌, String, Result, ok, err, if◌then◌else◌, ℤ, pos,
  pos_part, ltb_ℤ, Outcome, returns, panics, blocks, then_do,
}
use sentinelstream.Protocol.Types.{TelemetryMessage}
use sentinelstream.State.Store.{new_state_store}
use sentinelstream.Processor.Pool.{Processor, ProcessorConfig, new_processor, enqueue}
use sentinelstream.Processor.Pool
use sentinelstream.Ingestion.Udp.{UdpListener, StartError, new_udp_listener}
use sentinelstream.Ingestion.Udp
use sentinelstream.Ingestion.Tcp.{TcpListener, new_tcp_listener}
use sentinelstream.Ingestion.Tcp
use sentinelstream.Clock.{Duration}
use sentinelstream.Health.{MonitorConfig, new_monitor}
use sentinelstream.Replay.Files.{WriteFailure, record_event}

pub record Flags : Type 0 where
  pub port : ℤ
  pub tcp_port : ℤ
  pub buffer : ℤ
  pub workers : ℤ
  pub stale_timeout : Duration
  pub health_check_interval : Duration

pub record Services : Type 0 where
  pub proc : Processor
  pub monitor : MonitorConfig
  pub udp : UdpListener
  pub tcp : TcpListener

-- `os.Exit(1)` behind an error of a `Start`.
pub data BootError : Type 0 where
  processor_failed : String → BootError
  udp_failed : StartError → BootError
  tcp_failed : StartError → BootError

-- Making a channel of a negative size panics. `some e`: binding the port fails with the error `e`.
unfoldable pub boot : Flags → Option String → Option String → Outcome (Result BootError Services)
boot flags udp_bound tcp_bound =
    let config : ProcessorConfig = record {
      num_workers = flags.workers;
      queue_size = flags.buffer;
    } in
    let (proc, proc_error) = Pool.start (new_processor config new_state_store) in
    let watched : MonitorConfig = record {
      stale_timeout = flags.stale_timeout;
      check_interval = flags.health_check_interval;
    } in
    elim proc_error [
      | some e ↦ returns (err (processor_failed e))
      | none ↦
          if ltb_ℤ flags.buffer (pos 0)
          then panics
          else (let (udp, udp_error) =
                Udp.start udp_bound (new_udp_listener flags.port (pos_part flags.buffer)) in
              elim udp_error [
                | some e ↦ returns (err (udp_failed e))
                | none ↦
                    let (tcp, tcp_error) =
                      Tcp.start tcp_bound
                        (new_tcp_listener flags.tcp_port (pos_part flags.buffer)) in
                    elim tcp_error [
                      | some e ↦ returns (err (tcp_failed e))
                      | none ↦ returns (
                          ok (record {
                            proc = proc;
                            monitor = new_monitor watched;
                            udp = udp;
                            tcp = tcp;
                          }))
                    ]
              ])
    ]

-- The processor, and the record file if there is one.
pub record Pipeline : Type 0 where
  pub proc : Processor
  pub file : Option (List ℕ)

-- `if recorder != nil { … recorder.Record(msg) … }`
abbrev pub record_if :
    (TelemetryMessage → Result String (List ℕ))
    → WriteFailure
    → TelemetryMessage
    → Option (List ℕ)
    → Option (List ℕ)
record_if marshal failure msg none = none
record_if marshal failure msg (some file) = some (record_event marshal failure msg file).0

-- `forward`: errors are only printed.
unfoldable pub forward :
    (TelemetryMessage → Result String (List ℕ))
    → WriteFailure
    → Bool
    → TelemetryMessage
    → Pipeline
    → Outcome Pipeline
forward marshal failure picks_send msg p =
    let file' = record_if marshal failure msg p.file in
    then_do (enqueue picks_send (some msg) p.proc)
      (λ r. returns (record { proc = r.0; file = file' }))
