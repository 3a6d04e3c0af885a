-- ===== src/Server/Booting.antt =====
-- What the parts of a server are like that has just started.
use sentinelstream.Prelude.{
  ◌≡◌, refl, subst, true, false, Bool-cases, inl, inr, Option, none, some, String, Result, ok, err,
  pos, ltb_ℤ, List, map, replicate, Outcome, returns, panics, blocks,
}
use sentinelstream.Processor.Pool.{Processor, new_processor, or_default}
use sentinelstream.Processor.Worker.{Worker}
use sentinelstream.Processor.Stats.{new_workers}
use sentinelstream.Processor.Pool
use sentinelstream.Processor.Lifecycle.{IsLive}
use sentinelstream.Ingestion.Udp.{new_udp_listener}
use sentinelstream.Ingestion.Udp
use sentinelstream.Ingestion.Reading.{IsOpen}
use sentinelstream.Ingestion.Tcp.{TcpListener, new_tcp_listener}
use sentinelstream.Ingestion.Tcp
use sentinelstream.Server.{Flags, Services, BootError, boot}

-- A TCP listener that runs.
pub record IsTcpOpen (l : TcpListener) : Type 0 where
  pub running : l.is_running ≡ true
  pub unstopped : l.stop_closed ≡ false
  pub open_messages : l.messages.closed ≡ false
  pub open_errors : l.errors.closed ≡ false

-- A pool that has all its workers.
abbrev pub IsStaffed : Processor → Type 0
IsStaffed p = (ws : List Worker) × (p.workers ≡ map some ws)

pub record IsBooted (services : Services) : Type 0 where
  pub live : IsLive services.proc
  pub staffed : IsStaffed services.proc
  pub udp_open : IsOpen services.udp
  pub tcp_open : IsTcpOpen services.tcp

abbrev HasBooted : Outcome (Result BootError Services) → Type 0
HasBooted (returns (ok services)) = IsBooted services
HasBooted (returns (err e)) = Unit
HasBooted panics = Unit
HasBooted blocks = Unit

boot-HasBooted :
    (flags : Flags) (udp_bound tcp_bound : Option String)
    → HasBooted (boot flags udp_bound tcp_bound)
unfolding boot Pool.start new_processor Udp.start Tcp.start new_udp_listener new_tcp_listener
boot-HasBooted flags (some e) tcp_bound = elim (Bool-cases (ltb_ℤ flags.buffer (pos 0))) [
  | inl negative ↦ rw (negative, HasBooted) tt
  | inr fine ↦ rw (fine, HasBooted) tt
]
boot-HasBooted flags none (some e) = elim (Bool-cases (ltb_ℤ flags.buffer (pos 0))) [
  | inl negative ↦ rw (negative, HasBooted) tt
  | inr fine ↦ rw (fine, HasBooted) tt
]
boot-HasBooted flags none none = elim (Bool-cases (ltb_ℤ flags.buffer (pos 0))) [
  | inl negative ↦ rw (negative, HasBooted) tt
  | inr fine ↦
      rw (fine, HasBooted)
        (record {
          live = record { running = refl; open_stop = refl; open_jobs = refl };
          staffed =
              let (ws, e, fresh) = new_workers 0 (replicate (or_default flags.workers 4) none) in
              (ws, e);
          udp_open = record {
            running = refl;
            unstopped = refl;
            open_messages = refl;
            open_errors = refl;
          };
          tcp_open = record {
            running = refl;
            unstopped = refl;
            open_messages = refl;
            open_errors = refl;
          };
        })
]

pub boot-IsBooted :
    (flags : Flags) (udp_bound tcp_bound : Option String) (services : Services)
    → boot flags udp_bound tcp_bound ≡ returns (ok services)
    → IsBooted services
boot-IsBooted flags udp_bound tcp_bound services h =
    subst HasBooted h (boot-HasBooted flags udp_bound tcp_bound)
