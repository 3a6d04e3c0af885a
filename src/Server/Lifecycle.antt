-- ===== src/Server/Lifecycle.antt =====
-- cmd/server/main.go from its flags to its end: what is started, in this order, when it gives up, and
-- the deferred calls, one after another, from a state in which every part works. Whether the handlers of
-- the TCP connections end is an argument.
pub mod Starting
pub mod Shutdown
use sentinelstream.Prelude.{
  ℕ, Bool, true, false, Option, none, some, List, [], String, str_eq, Result, ok, err,
  if◌then◌else◌, Outcome, returns, panics, blocks, then_do,
}
use sentinelstream.Processor.Pool
use sentinelstream.Processor.Pool.{Processor}
use sentinelstream.Ingestion.Udp
use sentinelstream.Ingestion.Udp.{UdpListener}
use sentinelstream.Ingestion.Tcp
use sentinelstream.Ingestion.Tcp.{TcpListener}
use sentinelstream.Health
use sentinelstream.Health.{Monitor, make_monitor}
use sentinelstream.Api.Serving
use sentinelstream.Api.Serving.{Serving, new_serving}
use sentinelstream.Server.{Flags, Services, BootError, boot}
use sentinelstream.Replay.Files.{EventRecorder, OpenError, new_event_recorder, close_event_recorder}
use sentinelstream.Server.Printing.{Line, print_final}

-- `os.Exit(1)`, with what was printed; the deferred calls are not made then.
pub data Exit : Type 0 where
  not_booted : BootError → Exit
  no_api : String → Exit
  no_record_file : OpenError → Exit

pub record Running : Type 0 where
  pub proc : Processor
  pub monitor : Monitor
  pub udp : UdpListener
  pub tcp : TcpListener
  pub api : Serving
  pub recorder : Option EventRecorder

-- `if *recordFile != "" { … }`
unfoldable pub open_recorder :
    (String → Result String (List ℕ)) → String → Result OpenError (Option EventRecorder)
open_recorder open_file path =
    if str_eq path "" then ok none else (elim (new_event_recorder open_file path) [
      | err e ↦ err e
      | ok recorder ↦ ok (some recorder)
    ])

abbrev pub finish_start :
    Services → Serving → Result OpenError (Option EventRecorder) → Outcome (Result Exit Running)
finish_start services api (err e) = returns (err (no_record_file e))
finish_start services api (ok recorder) = returns (
    ok (record {
      proc = services.proc;
      monitor = Health.start (make_monitor services.monitor);
      udp = services.udp;
      tcp = services.tcp;
      api = api;
      recorder = recorder;
    }))

abbrev pub start_api :
    Result String String
    → String
    → Result OpenError (Option EventRecorder)
    → Services
    → Outcome (Result Exit Running)
start_api listened api_addr opened services =
    let (api, failed) = Serving.start listened (new_serving api_addr) in
    elim failed [ some e ↦ returns (err (no_api e)) | none ↦ finish_start services api opened ]

unfoldable pub start_server :
    Flags
    → Option String
    → Option String
    → Result String String
    → String
    → (String → Result String (List ℕ))
    → String
    → Outcome (Result Exit Running)
start_server flags udp_bound tcp_bound listened api_addr open_file record_file =
    then_do (boot flags udp_bound tcp_bound) (λ r. elim r [
      | err e ↦ returns (err (not_booted e))
      | ok services ↦ start_api listened api_addr (open_recorder open_file record_file) services
    ])

-- `recorder.Close()`
abbrev pub close_recorder : Option EventRecorder → Option EventRecorder
close_recorder none = none
close_recorder (some r) = some (close_event_recorder r)

-- `Stop` of the TCP listener: it waits for the accept loop and the handlers, and `handlers_end` says
-- whether they end.
unfoldable pub stop_tcp : Bool → TcpListener → Outcome TcpListener
stop_tcp handlers_end l =
    if l.is_running
    then then_do (Tcp.stop_signal (Tcp.stop_mark l))
        (λ q. if handlers_end then Tcp.close_channels q else blocks)
    else returns l

-- The deferred calls, the last one first.
unfoldable pub stop_server : Bool → Option String → Running → Outcome Running
stop_server handlers_end expired r =
    let recorder = close_recorder r.recorder in
    let api = (Serving.stop expired r.api).0 in
    then_do (stop_tcp handlers_end r.tcp) (λ tcp. then_do (Udp.stop r.udp) (λ udp.
      then_do (Health.stop r.monitor) (λ monitor. then_do (Pool.stop r.proc) (λ p. returns (record {
        proc = p.0;
        monitor = monitor;
        udp = udp;
        tcp = tcp;
        api = api;
        recorder = recorder;
      })))))

-- Behind the signal: the final statistics, and the deferred calls.
abbrev pub print_then_stop : Option (List Line) → Outcome Running → Outcome (List Line × Running)
print_then_stop none stopped = panics
print_then_stop (some lines) stopped = then_do stopped (λ r. returns (lines, r))

unfoldable pub shut_down : Bool → Option String → Running → Outcome (List Line × Running)
shut_down handlers_end expired r =
    print_then_stop (print_final r.udp r.tcp r.proc) (stop_server handlers_end expired r)
