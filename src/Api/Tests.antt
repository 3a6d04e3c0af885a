-- ===== src/Api/Tests.antt =====
-- A server with a small pool, and the answers of its handlers.
use sentinelstream.Prelude.{◌≡◌, ◌↔◌, refl, true, none, some, List, [], ◌∷◌, pos}
use sentinelstream.State.Log.{Call, updates, after}
use sentinelstream.State.Growth.{numbered}
use sentinelstream.Metrics.Latency.{Snapshot, new_latency_recorder}
use sentinelstream.Processor.Worker.{new_worker}
use sentinelstream.Processor.Pool.{Processor, stats, new_processor}
use sentinelstream.Ingestion.Udp.{new_udp_listener}
use sentinelstream.Ingestion.Tcp.{TcpListener, new_tcp_listener}
use sentinelstream.Api.{Server, MetricsSummary, handle_metrics_summary}
use sentinelstream.Api.Routes.{Request, Response, serve, is_read}
use sentinelstream.Api.Routes.Answers.{HasCors, IsServed, serve_exact}
use sentinelstream.Api.Listing.{IsExact, handle_metrics_summary-IsExact}

abbrev log : List Call
log = updates (pos 11) (numbered "gps-2" 7) ∷ updates (pos 10) (numbered "gps-1" 1) ∷ []

abbrev pool : Processor
pool = record (new_processor (record { num_workers = pos 1; queue_size = pos 2 }) (after log)) {
  workers = some (new_worker 0) ∷ [];
  shared = record {
    store = after log;
    processing_latency = new_latency_recorder (pos 2);
    end_to_end_latency = new_latency_recorder (pos 2);
  };
}

abbrev tcp : TcpListener
tcp = record (new_tcp_listener (pos 9001) 4) { messages_received = 5; messages_rejected = 1 }

abbrev server : Server
server = record { store = after log; proc = pool; udp = new_udp_listener (pos 9000) 4; tcp = tcp }

abbrev no_samples : Snapshot
no_samples = record { count = 0; min = pos 0; p50 = pos 0; p95 = pos 0; p99 = pos 0; max = pos 0 }

handle_metrics_summary-IsExact_example :
    (r : MetricsSummary) × (handle_metrics_summary server ≡ some r)
    × IsExact server (new_worker 0 ∷ []) r
handle_metrics_summary-IsExact_example =
    handle_metrics_summary-IsExact server log (new_worker 0 ∷ []) refl refl

abbrev request : Request
request = record { method = "GET"; path = "api" ∷ "v1" ∷ "sensors" ∷ "gps-2" ∷ [] }

serve_exact_example :
    ((r : Response)
      → serve request server ≡ some r
      → HasCors r × ((r.status ≡ 200) ↔ ((is_read "GET" ≡ true) × IsServed server request.path)))
    × (serve request server ≡ none → stats server.proc ≡ none)
serve_exact_example = serve_exact server log request refl
