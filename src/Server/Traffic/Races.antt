-- ===== src/Server/Traffic/Races.antt =====
-- What can go wrong while the server shuts down.
use sentinelstream.Prelude.{
  ℕ, ◌<◌, ◌≡◌, refl, ap, true, false, none, some, List, [], ◌∷◌, ◌++◌, String, Result, returns,
  panics, Channel, send, close, length, arith, add64,
}
use sentinelstream.Protocol.Types.{TelemetryMessage}
use sentinelstream.Processor.Pool.{Processor, select_enqueue, stop}
use sentinelstream.Processor.Lifecycle.{IsLive}
use sentinelstream.Server.Traffic.{
  udp, tcp, update, idle, recording, testing, selecting, serving, recorder_closed, Live, Reach,
  here, next, arrive, take, write_late, pass, accept, crash, close_recorder, stop_api, stop_tcp,
  stop_udp, stop_monitor, stop_proc,
}

-- A server at work whose UDP forwarder waits for the next datagram, with room in the queue.
pub record IsWaiting (s : Live) : Type 0 where
  pub fine : s.crashed ≡ false
  pub still : s.stage ≡ serving
  pub free : s.hands udp ≡ idle
  pub empty : (s.inputs udp).buffer ≡ []
  pub room : 0 < (s.inputs udp).capacity
  pub udp_open : (s.inputs udp).closed ≡ false
  pub tcp_open : (s.inputs tcp).closed ≡ false
  pub live : IsLive s.proc
  pub queue_room : length s.proc.jobs.buffer < s.proc.jobs.capacity

-- The channel with the message, and with none.
abbrev with_message : TelemetryMessage → Channel TelemetryMessage → Channel TelemetryMessage
with_message msg ch = record ch { buffer = ch.buffer ++ msg ∷ [] }

abbrev with_none : Channel TelemetryMessage → Channel TelemetryMessage
with_none ch = record ch { buffer = [] }

send-with_message :
    (msg : TelemetryMessage) (ch : Channel TelemetryMessage)
    → ch.closed ≡ false
    → ch.buffer ≡ []
    → 0 < ch.capacity
    → send msg ch ≡ returns (with_message msg ch)
unfolding send
send-with_message msg ch o e h = ground (arith, ap length e)

close_open :
    (ch : Channel TelemetryMessage)
    → ch.closed ≡ false
    → close ch ≡ returns (record ch { closed = true })
unfolding close
close_open ch o = rw o refl

-- The processor with one job more, and behind its `Stop`.
abbrev with_job : TelemetryMessage → Processor → Processor
with_job msg p = record p {
  jobs = record (p.jobs) { buffer = p.jobs.buffer ++ some msg ∷ [] };
  total_messages_enqueued = add64 p.total_messages_enqueued 1;
}

abbrev stopped : Processor → Processor
stopped p = record p {
  is_running = false;
  stop_closed = true;
  jobs = record (p.jobs) { closed = true };
}

select_enqueue-with_job :
    (msg : TelemetryMessage) (p : Processor)
    → IsLive p
    → length p.jobs.buffer < p.jobs.capacity
    → select_enqueue true (some msg) p ≡ returns (with_job msg p, none)
unfolding select_enqueue
select_enqueue-with_job msg p v room = ground (arith, v)

stop-stopped : (p : Processor) → IsLive p → stop p ≡ returns (stopped p, none)
unfolding stop
stop-stopped p v = ground (arith, v)

select_enqueue-stopped :
    (msg : TelemetryMessage) (p : Processor) → select_enqueue true (some msg) (stopped p) ≡ panics
unfolding select_enqueue
select_enqueue-stopped msg p = refl

module _ (marshal : TelemetryMessage → Result String (List ℕ)) (msg : TelemetryMessage) (s : Live)
    (w : IsWaiting s) where
  -- The recorder is closed, then a message comes and `recorder.Record` fails.
  abbrev unrecorded : Live
  unrecorded = record s {
    inputs =
        update udp (with_none (s.inputs udp))
          (update udp (with_message msg (s.inputs udp)) s.inputs);
    hands =
        update udp (selecting msg) (update udp (testing msg) (update udp (recording msg) s.hands));
    file_open = false;
    stage = recorder_closed;
    taken = msg ∷ s.taken;
    missed = msg ∷ s.missed;
  }

  Reach-unrecorded : Reach marshal s unrecorded
  Reach-unrecorded =
      next
        (next
          (next
            (next (next here (close_recorder w.fine w.still)) (
              arrive udp msg (with_message msg (s.inputs udp)) w.fine
                (send-with_message msg (s.inputs udp) w.udp_open w.empty w.room)))
            (take udp msg [] w.fine w.free (ap (λ b. b ++ msg ∷ []) w.empty)))
          (write_late udp msg w.fine refl refl))
        (pass udp msg w.fine refl w.live.running)

  -- From any state in which the server serves, no panic has happened, both listeners' channels are open,
  -- the processor runs with its channels open and its queue not full, and the UDP forwarder waits at its
  -- empty channel, which has room for a message: the shutdown may lead to a state in which `Enqueue` has
  -- accepted a message that the record file has not, and to one in which a forwarder panics because the
  -- processor was stopped.
  pub shutdown_races :
      ((t : Live) × Reach marshal s t
        × (t.accepted ≡ msg ∷ s.accepted)
        × (t.written ≡ s.written)
        × (t.file ≡ s.file)
        × (t.failed ≡ s.failed))
      × ((u : Live) × Reach marshal s u × (u.crashed ≡ true))
  shutdown_races = (
    (
      _,
      next Reach-unrecorded (
          accept udp msg true (with_job msg s.proc) w.fine refl
            (select_enqueue-with_job msg s.proc w.live w.queue_room)),
      refl,
      refl,
      refl,
      refl,
    ),
    (
      _,
      next
          (next
            (next
              (next
                (next (next Reach-unrecorded (stop_api w.fine refl))
                  (stop_tcp _ w.fine refl (close_open (s.inputs tcp) w.tcp_open)))
                (stop_udp _ w.fine refl (close_open (with_none (s.inputs udp)) w.udp_open)))
              (stop_monitor w.fine refl))
            (stop_proc (stopped s.proc) none w.fine refl (stop-stopped s.proc w.live)))
          (crash udp msg true w.fine refl (select_enqueue-stopped msg s.proc)),
      refl,
    ),
  )
