-- ===== src/Server/Lifecycle/Shutdown.antt =====
-- How a server at work comes to its end.
use sentinelstream.Prelude.{
  ◌≡◌, refl, subst, Bool, true, false, Option, none, some, List, String, Result, ok, returns,
  blocks, ℕ, close, arith,
}
use sentinelstream.Protocol.Types.{TelemetryMessage}
use sentinelstream.Processor.Lifecycle.{IsLive}
use sentinelstream.Processor.Pool.{Processor, enqueue}
use sentinelstream.Processor.Pool
use sentinelstream.Ingestion.Reading.{IsOpen}
use sentinelstream.Ingestion.Udp.{UdpListener}
use sentinelstream.Ingestion.Udp
use sentinelstream.Ingestion.Tcp.{TcpListener}
use sentinelstream.Ingestion.Tcp
use sentinelstream.Health.{Monitor, make_monitor}
use sentinelstream.Health
use sentinelstream.Api.Serving.{Serving, new_serving}
use sentinelstream.Api.Serving
use sentinelstream.Server.{Flags, boot}
use sentinelstream.Server.Printing.{Line, stats_lines, final_lines, print_stats, print_final}
use sentinelstream.Processor.Stats.{stats-IsSum}
use sentinelstream.Clock.{Time}
use sentinelstream.State.Store.{count}
use mathlib.Core.Path.{ap₂}
use sentinelstream.Server.Booting.{IsStaffed, IsTcpOpen, boot-IsBooted}
use sentinelstream.Server.Lifecycle.{
  Running, open_recorder, start_server, close_recorder, stop_tcp, stop_server, shut_down,
  print_then_stop,
}
use sentinelstream.Server.Lifecycle.Starting.{IsWorking, HasStarted, booted-HasStarted}

-- The channels are closed, and the processor takes no message.
pub record IsStopped (r : Running) : Type 0 where
  pub udp_closed : (r.udp.is_running ≡ false) × (r.udp.messages.closed ≡ true)
  pub tcp_closed : (r.tcp.is_running ≡ false) × (r.tcp.messages.closed ≡ true)
  pub queue_closed : r.proc.jobs.closed ≡ true
  pub refuses :
      (pick : Bool) (msg : TelemetryMessage)
      → enqueue pick (some msg) r.proc ≡ returns (r.proc, some "processor not running")

-- Each part's `Stop`.
stop_tcp_open :
    (l : TcpListener)
    → IsTcpOpen l
    → stop_tcp true l
      ≡ returns (record l {
        is_running = false;
        stop_closed = true;
        messages = record (l.messages) { closed = true };
        errors = record (l.errors) { closed = true };
      })
unfolding stop_tcp Tcp.stop_signal Tcp.stop_mark Tcp.close_channels close
stop_tcp_open l v = ground (arith, v)

-- If a handler never ends, `Stop` of the TCP listener never returns.
stop_tcp_stuck : (l : TcpListener) → IsTcpOpen l → stop_tcp false l ≡ blocks
unfolding stop_tcp Tcp.stop_signal Tcp.stop_mark
stop_tcp_stuck l v = ground (arith, v)

stop_udp_open :
    (l : UdpListener)
    → IsOpen l
    → Udp.stop l
      ≡ returns (record l {
        is_running = false;
        stop_closed = true;
        messages = record (l.messages) { closed = true };
        errors = record (l.errors) { closed = true };
      })
unfolding Udp.stop
stop_udp_open l v = ground (arith, v)

stop_proc_live :
    (p : Processor)
    → IsLive p
    → Pool.stop p
      ≡ returns (
        record p {
          is_running = false;
          stop_closed = true;
          jobs = record (p.jobs) { closed = true };
        },
        none,
      )
unfolding Pool.stop
stop_proc_live p v = ground (arith, v)

stop_monitor_open :
    (m : Monitor)
    → m.stop_closed ≡ false
    → Health.stop m ≡ returns (record m { loops = 0; stop_closed = true })
unfolding Health.stop
stop_monitor_open m h = ground (arith, h)

-- What the deferred calls leave of a server at work.
abbrev remains : Option String → Running → Running
remains expired r = record {
  proc = record (r.proc) {
    is_running = false;
    stop_closed = true;
    jobs = record (r.proc.jobs) { closed = true };
  };
  monitor = record (r.monitor) { loops = 0; stop_closed = true };
  udp = record (r.udp) {
    is_running = false;
    stop_closed = true;
    messages = record (r.udp.messages) { closed = true };
    errors = record (r.udp.errors) { closed = true };
  };
  tcp = record (r.tcp) {
    is_running = false;
    stop_closed = true;
    messages = record (r.tcp.messages) { closed = true };
    errors = record (r.tcp.errors) { closed = true };
  };
  api = (Serving.stop expired r.api).0;
  recorder = close_recorder r.recorder;
}

stop_server_working :
    (expired : Option String) (r : Running)
    → IsWorking r
    → (r' : Running) × (stop_server true expired r ≡ returns r') × IsStopped r'
unfolding stop_server Serving.stop enqueue
stop_server_working expired r v = (
  remains expired r,
  rw
      (
        stop_tcp_open r.tcp v.tcp_open,
        stop_udp_open r.udp v.udp_open,
        stop_monitor_open r.monitor v.one_loop.1,
        stop_proc_live r.proc v.live,
      )
      refl,
  record {
    udp_closed = (refl, refl);
    tcp_closed = (refl, refl);
    queue_closed = refl;
    refuses = λ pick msg. refl;
  },
)

-- `Stats` panics on no pool that has its workers.
print_final_total :
    (udp : UdpListener) (tcp : TcpListener) (p : Processor)
    → IsStaffed p
    → (lines : List Line) × (print_final udp tcp p ≡ some lines)
unfolding print_final
print_final_total udp tcp p (ws, e) =
    let (s, counted, sums, depth) = stats-IsSum p ws e in
    (final_lines udp tcp s (count p.shared.store), rw counted refl)

print_stats_total :
    (now : Time) (udp : UdpListener) (tcp : TcpListener) (p : Processor)
    → IsStaffed p
    → (lines : List Line) × (print_stats now udp tcp p ≡ some lines)
unfolding print_stats
print_stats_total now udp tcp p (ws, e) =
    let (s, counted, sums, depth) = stats-IsSum p ws e in
    (stats_lines now udp tcp s, rw counted refl)

stop_server_stuck :
    (expired : Option String) (r : Running) → IsWorking r → stop_server false expired r ≡ blocks
unfolding stop_server
stop_server_stuck expired r v = rw (stop_tcp_stuck r.tcp v.tcp_open) refl

-- What the end of `main` does from a state in which every part works: the final statistics are printed
-- without a panic, and if the handlers of the TCP connections end, the deferred calls come through, the
-- channels of the listeners and the queue are closed, and the processor refuses every message; if a
-- handler does not end, `main` waits for ever.
record Ends (expired : Option String) (r : Running) : Type 0 where
  lines : List Line
  printed : print_final r.udp r.tcp r.proc ≡ some lines
  last : Running
  returned : shut_down true expired r ≡ returns (lines, last)
  stopped : IsStopped last
  stuck : shut_down false expired r ≡ blocks

working-Ends : (expired : Option String) (r : Running) → IsWorking r → Ends expired r
unfolding shut_down
working-Ends expired r v =
    let (lines, printed) = print_final_total r.udp r.tcp r.proc v.staffed in
    let (last, stops, stopped) = stop_server_working expired r v in
    record {
      lines = lines;
      printed = printed;
      last = last;
      returned = ap₂ print_then_stop printed stops;
      stopped = stopped;
      stuck = ap₂ print_then_stop printed (stop_server_stuck expired r v);
    }

-- A server that has started works in all its parts, and it can print its statistics without a panic.
start_server-IsWorking :
    (flags : Flags) (udp_bound tcp_bound : Option String) (listened : Result String String)
    (api_addr : String) (open_file : String → Result String (List ℕ)) (record_file : String)
    (r : Running)
    → start_server flags udp_bound tcp_bound listened api_addr open_file record_file
      ≡ returns (ok r)
    → IsWorking r
      × ((now : Time) → (lines : List Line) × (print_stats now r.udp r.tcp r.proc ≡ some lines))
unfolding start_server
start_server-IsWorking flags udp_bound tcp_bound listened api_addr open_file record_file r h =
    let working = subst HasStarted h (
      booted-HasStarted listened api_addr (open_recorder open_file record_file)
        (boot flags udp_bound tcp_bound) (boot-IsBooted flags udp_bound tcp_bound)) in
    (working, λ now. print_stats_total now r.udp r.tcp r.proc working.staffed)
