-- ===== src/Server/Printing.antt =====
-- The statistics that cmd/server/main.go prints, every five seconds and at the end, by their values.
-- `none` is a panic in the `Stats` of the processor.
use sentinelstream.Prelude.{ℕ, Option, some, List, [], ◌∷◌}
use sentinelstream.Prelude.Panic.{◌>>=◌}
use sentinelstream.Clock.{Time}
use sentinelstream.State.Store.{count}
use sentinelstream.Processor.Pool.{Processor, ProcessorStats}
use sentinelstream.Processor.Pool
use sentinelstream.Processor.Texts.{ProcessorText, processor_string}
use sentinelstream.Ingestion.Udp.{UdpListener}
use sentinelstream.Ingestion.Udp
use sentinelstream.Ingestion.Tcp.{TcpListener}
use sentinelstream.Ingestion.Tcp
use sentinelstream.Ingestion.Rates.{ListenerText, TcpListenerText, udp_string, tcp_string}

pub data Line : Type 0 where
  server_stats : Time → Line
  final_statistics : Line
  udp_line : ListenerText → Line
  tcp_line : TcpListenerText → Line
  processor_line : ProcessorText → Line
  unique_sensors : ℕ → Line
  server_stopped : Line

-- One tick of the stats printer, with what `proc.Stats` returns.
abbrev pub stats_lines : Time → UdpListener → TcpListener → ProcessorStats → List Line
stats_lines now udp tcp proc_stats =
    server_stats now
    ∷ udp_line (udp_string (Udp.stats udp))
    ∷ tcp_line (tcp_string (Tcp.stats tcp))
    ∷ processor_line (processor_string proc_stats)
    ∷ []

unfoldable pub print_stats : Time → UdpListener → TcpListener → Processor → Option (List Line)
print_stats now udp tcp proc = do
  proc_stats ← Pool.stats proc
  some (stats_lines now udp tcp proc_stats)

-- At the end, with the sensors of the store.
abbrev pub final_lines : UdpListener → TcpListener → ProcessorStats → ℕ → List Line
final_lines udp tcp proc_stats sensors =
    final_statistics
    ∷ udp_line (udp_string (Udp.stats udp))
    ∷ tcp_line (tcp_string (Tcp.stats tcp))
    ∷ processor_line (processor_string proc_stats)
    ∷ unique_sensors sensors
    ∷ server_stopped
    ∷ []

unfoldable pub print_final : UdpListener → TcpListener → Processor → Option (List Line)
print_final udp tcp proc = do
  proc_stats ← Pool.stats proc
  some (final_lines udp tcp proc_stats (count proc.shared.store))
