-- ===== src/Server/Forwarding.antt =====
-- What the server forwards reaches the queue of the processor, and the record file.
use mathlib.Core.List.{append_assoc, append-nil}
use sentinelstream.Prelude.{
  ℕ, suc, ltb, ℤ, pos, ◌+◌, ◌%◌, ◌≤◌, ◌<◌, ◌≡◌, refl, sym, ap, ◌∙◌, Bool, true, false, Option, none,
  some, List, [], ◌∷◌, ◌++◌, map, String, Result, ok, length, length-append, All, arith, add64,
  u64_mod, Outcome, returns, then_do,
}
use sentinelstream.Protocol.Types.{TelemetryMessage}
use sentinelstream.State.Store.{new_state_store}
use sentinelstream.Processor.Pool.{Processor, ProcessorConfig, enqueue, new_processor, start}
use sentinelstream.Processor.Pool
use sentinelstream.Ingestion.Udp.{new_udp_listener}
use sentinelstream.Ingestion.Udp
use sentinelstream.Ingestion.Tcp.{new_tcp_listener}
use sentinelstream.Ingestion.Tcp
use sentinelstream.Clock.{Duration}
use sentinelstream.Health.{new_monitor}
use sentinelstream.Processor.Lifecycle.{IsLive}
use sentinelstream.Replay.Files.{record_event, replay}
use sentinelstream.Replay.Roundtrip.{IsRecordable, record_all, hand_on, replay-record_all}
use sentinelstream.Server.{Flags, Services, Pipeline, boot, forward}

-- The processor with the messages at the end of its queue.
abbrev pub queued : List TelemetryMessage → ℕ → Processor → Processor
queued msgs n p = record p {
  jobs = record (p.jobs) { buffer = p.jobs.buffer ++ map some msgs };
  total_messages_enqueued = n;
}

pub queued-IsLive :
    (msgs : List TelemetryMessage) (n : ℕ) (p : Processor) → IsLive p → IsLive (queued msgs n p)
queued-IsLive msgs n p v = record {
  running = v.running;
  open_stop = v.open_stop;
  open_jobs = v.open_jobs;
}

-- No message more, or one and then more.
pub queued-nil : (p : Processor) → p ≡ queued [] p.total_messages_enqueued p
queued-nil p =
    ap (λ b. record p { jobs = record (p.jobs) { buffer = b } }) (sym (append-nil p.jobs.buffer))

pub queued-queued :
    (msg : TelemetryMessage) (msgs : List TelemetryMessage) (m n : ℕ) (p : Processor)
    → queued msgs n (queued (msg ∷ []) m p) ≡ queued (msg ∷ msgs) n p
queued-queued msg msgs m n p =
    ap (λ b. record p { jobs = record (p.jobs) { buffer = b }; total_messages_enqueued = n })
      (append_assoc p.jobs.buffer (some msg ∷ []) (map some msgs))

pub enqueue-IsLive :
    (pick : Bool) (msg : TelemetryMessage) (p : Processor)
    → IsLive p
    → length p.jobs.buffer < p.jobs.capacity
    → enqueue pick (some msg) p
      ≡ returns (queued (msg ∷ []) (add64 p.total_messages_enqueued 1) p, none)
unfolding enqueue
enqueue-IsLive pick msg p v room = ground (arith, v)

module _ (marshal : TelemetryMessage → Result String (List ℕ)) where
  -- The messages are forwarded one after another; no write to the record file fails.
  unfoldable pub forward_all : List TelemetryMessage → Pipeline → Outcome Pipeline
  forward_all [] p = returns p
  forward_all (msg ∷ msgs) p = then_do (forward marshal none true msg p) (forward_all msgs)

  forward-IsLive :
      (pick : Bool) (msg : TelemetryMessage) (p : Processor) (file : List ℕ)
      → IsLive p
      → length p.jobs.buffer < p.jobs.capacity
      → forward marshal none pick msg (record { proc = p; file = some file })
        ≡ returns (record {
          proc = queued (msg ∷ []) (add64 p.total_messages_enqueued 1) p;
          file = some (record_event marshal none msg file).0;
        })
  unfolding forward
  forward-IsLive pick msg p file v room =
      ap
        (λ r. then_do r (λ q.
          returns (record { proc = q.0; file = some (record_event marshal none msg file).0 })))
        (enqueue-IsLive pick msg p v room)

  forward_all_lem :
      (msgs : List TelemetryMessage) (p : Processor) (file : List ℕ)
      → IsLive p
      → length p.jobs.buffer + length msgs ≤ p.jobs.capacity
      → (n : ℕ) × (forward_all msgs (record { proc = p; file = some file })
          ≡ returns (record { proc = queued msgs n p; file = some (record_all marshal msgs file) }))
        × (n % u64_mod ≡ (p.total_messages_enqueued + length msgs) % u64_mod)
  unfolding forward_all record_all
  forward_all_lem [] p file v room = (
    p.total_messages_enqueued,
    ap (λ q. returns (record { proc = q; file = some file })) (queued-nil p),
    omega arith,
  )
  forward_all_lem (msg ∷ msgs) p file v room =
      let m = add64 p.total_messages_enqueued 1 in
      let written = (record_event marshal none msg file).0 in
      let (n, e, count) =
        forward_all_lem msgs (queued (msg ∷ []) m p) written (queued-IsLive (msg ∷ []) m p v)
          (omega (arith, length-append p.jobs.buffer (some msg ∷ []))) in
      (
        n,
        ap (λ r. then_do r (forward_all msgs)) (forward-IsLive true msg p file v (omega arith))
            ∙ e
            ∙ ap (λ q. returns (record { proc = q; file = some (record_all marshal msgs written) }))
                (queued-queued msg msgs m n p),
        omega arith,
      )

-- The processor of a server with a queue of a positive size.
abbrev pub booted : ℤ → ℕ → Processor
booted workers size =
    (start (
      new_processor (record { num_workers = workers; queue_size = pos (suc size) })
        new_state_store)).0

pub booted-IsLive : (workers : ℤ) (size : ℕ) → IsLive (booted workers size)
unfolding start new_processor
booted-IsLive workers size = record { running = refl; open_stop = refl; open_jobs = refl }

pub booted-room :
    (workers : ℤ) (size n : ℕ)
    → n ≤ suc size
    → length (booted workers size).jobs.buffer + n ≤ (booted workers size).jobs.capacity
unfolding start new_processor
booted-room workers size n h = ground arith

abbrev pub flags_of : ℤ → ℤ → ℤ → ℕ → Duration → Duration → Flags
flags_of port tcp_port workers size timeout every = record {
  port = port;
  tcp_port = tcp_port;
  buffer = pos (suc size);
  workers = workers;
  stale_timeout = timeout;
  health_check_interval = every;
}

abbrev services_of : ℤ → ℤ → ℤ → ℕ → Duration → Duration → Services
services_of port tcp_port workers size timeout every = record {
  proc = booted workers size;
  monitor = new_monitor (record { stale_timeout = timeout; check_interval = every });
  udp = (Udp.start none (new_udp_listener port (suc size))).0;
  tcp = (Tcp.start none (new_tcp_listener tcp_port (suc size))).0;
}

booted_lem :
    (port tcp_port workers : ℤ) (size : ℕ) (timeout every : Duration)
    → boot (flags_of port tcp_port workers size timeout every) none none
      ≡ returns (ok (services_of port tcp_port workers size timeout every))
unfolding boot start new_processor Udp.start new_udp_listener Tcp.start new_tcp_listener
booted_lem port tcp_port workers size timeout every =
    let not_negative : ltb (suc size + 0) 0 ≡ false = ground arith in rw not_negative refl

-- A server that is started with a positive buffer size, whose ports can be bound, starts its parts. It
-- queues the messages that it forwards in their order, if they are no more than that and no worker
-- takes one; and if no write to the new record file fails, then to replay that file is to hand on the
-- same messages in the same order up to the first failure of the context or the handler; each message
-- is marshalled to a line that is not empty, shorter than a MiB, and read back as the message.
pub boot-forward_all :
    {S : Type 0} (marshal : TelemetryMessage → Result String (List ℕ))
    (unmarshal : List ℕ → Result String TelemetryMessage) (context : ℕ → Option String)
    (handle : TelemetryMessage → S → S × Option String) (s : S) (port tcp_port workers : ℤ)
    (size : ℕ) (timeout every : Duration) (msgs : List TelemetryMessage)
    → length msgs ≤ suc size
    → All (IsRecordable marshal unmarshal) msgs
    → (services : Services) × (boot (flags_of port tcp_port workers size timeout every) none none
        ≡ returns (ok services))
      × (p : Pipeline) × (forward_all marshal msgs (record { proc = services.proc; file = some [] })
          ≡ returns p)
      × (p.proc.jobs.buffer ≡ map some msgs)
      × (file : List ℕ) × (p.file ≡ some file)
      × (replay unmarshal context handle (ok file) s ≡ hand_on context handle 0 0 msgs s)
unfolding Pool.start new_processor
boot-forward_all marshal unmarshal context handle s port tcp_port workers size timeout every msgs h
      v =
    let (n, e, count) =
      forward_all_lem marshal msgs (booted workers size) [] (booted-IsLive workers size)
        (booted-room workers size (length msgs) h) in
    (
      services_of port tcp_port workers size timeout every,
      booted_lem port tcp_port workers size timeout every,
      record {
        proc = queued msgs n (booted workers size);
        file = some (record_all marshal msgs []);
      },
      e,
      refl,
      record_all marshal msgs [],
      refl,
      replay-record_all marshal unmarshal context handle msgs s v,
    )
