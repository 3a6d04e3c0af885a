-- ===== src/Server/Lifecycle/Starting.antt =====
-- A server that has started works in all its parts.
use sentinelstream.Prelude.{
  ◌≡◌, refl, false, Option, String, Result, ok, err, Outcome, returns, panics, blocks, then_do,
}
use sentinelstream.Processor.Lifecycle.{IsLive}
use sentinelstream.Ingestion.Reading.{IsOpen}
use sentinelstream.Health.{Monitor, make_monitor}
use sentinelstream.Health
use sentinelstream.Api.Serving.{Serving, new_serving}
use sentinelstream.Api.Serving
use sentinelstream.Server.{Services, BootError}
use sentinelstream.Server.Booting.{IsStaffed, IsTcpOpen, IsBooted}
use sentinelstream.Replay.Files.{EventRecorder, OpenError}
use sentinelstream.Server.Lifecycle.{Exit, not_booted, Running, finish_start, start_api}

-- Every part works.
pub record IsWorking (r : Running) : Type 0 where
  pub live : IsLive r.proc
  pub staffed : IsStaffed r.proc
  pub udp_open : IsOpen r.udp
  pub tcp_open : IsTcpOpen r.tcp
  pub one_loop : (r.monitor.loops ≡ 1) × (r.monitor.stop_closed ≡ false)
  pub serving : r.api.shut_down ≡ false

-- If the server has started, every part works.
abbrev pub HasStarted : Outcome (Result Exit Running) → Type 0
HasStarted (returns (ok r)) = IsWorking r
HasStarted (returns (err e)) = Unit
HasStarted panics = Unit
HasStarted blocks = Unit

finish_start-HasStarted :
    (services : Services) (api : Serving) (opened : Result OpenError (Option EventRecorder))
    → IsBooted services
    → api.shut_down ≡ false
    → HasStarted (finish_start services api opened)
unfolding Health.start
finish_start-HasStarted services api (err e) v h = tt
finish_start-HasStarted services api (ok recorder) v h = record {
  live = v.live;
  staffed = v.staffed;
  udp_open = v.udp_open;
  tcp_open = v.tcp_open;
  one_loop = (refl, refl);
  serving = h;
}

start_api-HasStarted :
    (listened : Result String String) (services : Services) (api_addr : String)
    (opened : Result OpenError (Option EventRecorder))
    → IsBooted services
    → HasStarted (start_api listened api_addr opened services)
unfolding Serving.start
start_api-HasStarted (err e) services api_addr opened v = tt
start_api-HasStarted (ok bound) services api_addr opened v =
    finish_start-HasStarted services _ opened v refl

pub booted-HasStarted :
    (listened : Result String String) (api_addr : String)
    (opened : Result OpenError (Option EventRecorder)) (o : Outcome (Result BootError Services))
    → ((services : Services) → o ≡ returns (ok services) → IsBooted services)
    → HasStarted (
        then_do o (λ r. elim r [
          | err e ↦ returns (err (not_booted e))
          | ok services ↦ start_api listened api_addr opened services
        ]))
booted-HasStarted listened api_addr opened (returns (ok services)) v =
    start_api-HasStarted listened services api_addr opened (v services refl)
booted-HasStarted listened api_addr opened (returns (err e)) v = tt
booted-HasStarted listened api_addr opened panics v = tt
booted-HasStarted listened api_addr opened blocks v = tt
