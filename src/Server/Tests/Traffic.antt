-- ===== src/Server/Tests/Traffic.antt =====
-- A server that records and queues one message of its UDP listener.
use mathlib.Core.List.{reverse}
use sentinelstream.Prelude.{
  ◌+◌, ◌≡◌, refl, Bool, true, false, none, [], ◌∷◌, ok, pos, arith, returns, send,
}
use sentinelstream.Protocol.Types.{TelemetryMessage}
use sentinelstream.Replay.Files.{record_event}
use sentinelstream.Replay.Roundtrip.{record_all}
use sentinelstream.Processor.Pool.{new_processor, start, select_enqueue}
use sentinelstream.Ingestion.Udp.{new_udp_listener}
use sentinelstream.Ingestion.Udp
use sentinelstream.Ingestion.Tcp.{new_tcp_listener}
use sentinelstream.Ingestion.Tcp
use sentinelstream.Server.{Services, boot}
use sentinelstream.Server.Forwarding.{flags_of, booted, booted-IsLive}
use sentinelstream.Server.Traffic.{
  udp, Live, serving, Reach, here, next, arrive, take, write_well, pass, accept,
}
use sentinelstream.Server.Traffic.Counts.{count, both, before_record, behind_record}
use sentinelstream.Server.Traffic.Recording.{opening, recorded_exactly}
use sentinelstream.Server.Traffic.States.{is_over}
use sentinelstream.Server.Traffic.Races.{IsWaiting, shutdown_races}
use sentinelstream.Server.Tests.{message, marshal}
use sentinelstream.Health.{new_monitor}

abbrev services : Services
services = record {
  proc = booted (pos 8) 2;
  monitor = new_monitor (record { stale_timeout = pos 5; check_interval = pos 1 });
  udp = (Udp.start none (new_udp_listener (pos 9000) 3)).0;
  tcp = (Tcp.start none (new_tcp_listener (pos 9001) 3)).0;
}

started :
    boot (flags_of (pos 9000) (pos 9001) (pos 8) 2 (pos 5) (pos 1)) none none
    ≡ returns (ok services)
unfolding boot start new_processor Udp.start Tcp.start new_udp_listener new_tcp_listener
started = refl

day : (s : Live) × Reach marshal (opening services) s
unfolding send record_event select_enqueue start new_processor Udp.start Tcp.start new_udp_listener
    new_tcp_listener
day = (
  _,
  next
      (next
        (next
          (next (next here (arrive udp message _ refl refl)) (take udp message [] refl refl refl))
          (write_well udp message (123 ∷ 125 ∷ 10 ∷ []) refl refl refl refl))
        (pass udp message refl refl refl))
      (accept udp message true _ refl refl refl),
)

recorded_exactly_example :
    let s = day.0 in
    (s.stage ≡ serving
      → s.failed ≡ false
      → (s.file ≡ record_all marshal (reverse s.written) [])
        × ((p : TelemetryMessage → Bool)
            → (count p s.written ≡ count p s.accepted + both (behind_record p) s.hands)
              × (count p s.taken ≡ count p s.written + both (before_record p) s.hands)))
    × (is_over s.stage ≡ false → (s.refused ≡ []) × (s.crashed ≡ false))
recorded_exactly_example =
    recorded_exactly marshal (flags_of (pos 9000) (pos 9001) (pos 8) 2 (pos 5) (pos 1)) none none
      services started day.1

opening-IsWaiting : IsWaiting (opening services)
unfolding start new_processor Udp.start Tcp.start new_udp_listener new_tcp_listener
opening-IsWaiting = record {
  fine = refl;
  still = refl;
  free = refl;
  empty = refl;
  room = omega arith;
  udp_open = refl;
  tcp_open = refl;
  live = booted-IsLive (pos 8) 2;
  queue_room = omega arith;
}

shutdown_races_example :
    let s = opening services in
    ((t : Live) × Reach marshal s t
      × (t.accepted ≡ message ∷ [])
      × (t.written ≡ [])
      × (t.file ≡ [])
      × (t.failed ≡ false))
    × ((u : Live) × Reach marshal s u × (u.crashed ≡ true))
shutdown_races_example = shutdown_races marshal message (opening services) opening-IsWaiting
