-- ===== src/Server/Traffic/States.antt =====
-- What holds of a server at work in every state, and the steps that keep it.
use mathlib.Core.List.{reverse}
use sentinelstream.Prelude.{
  ℕ, ◌≡◌, ap, ◌∙◌, Bool, true, false, Option, none, some, List, [], String, Result, Outcome,
  returns, panics, blocks, Channel, arith, inl, inr, Bool-cases, has_room,
}
use sentinelstream.Protocol.Types.{TelemetryMessage}
use sentinelstream.Processor.Pool.{Processor, select_enqueue}
use sentinelstream.Processor.Lifecycle.{IsLive}
use sentinelstream.Replay.Roundtrip.{record_all}
use sentinelstream.Server.Traffic.{
  Side, Hand, Stage, serving, recorder_closed, api_stopped, tcp_stopped, udp_stopped,
  monitor_stopped, proc_stopped, Live,
}

abbrev pub is_serving : Stage → Bool
is_serving serving = true
is_serving recorder_closed = false
is_serving api_stopped = false
is_serving tcp_stopped = false
is_serving udp_stopped = false
is_serving monitor_stopped = false
is_serving proc_stopped = false

abbrev pub is_over : Stage → Bool
is_over serving = false
is_over recorder_closed = false
is_over api_stopped = false
is_over tcp_stopped = false
is_over udp_stopped = false
is_over monitor_stopped = false
is_over proc_stopped = true

-- A result of `Enqueue` that is no error and no panic.
abbrev pub Accepted : Outcome (Processor × Option String) → Type 0
Accepted (returns (p, none)) = IsLive p
Accepted (returns (p, some e)) = ⊥
Accepted panics = ⊥
Accepted blocks = Unit

select_enqueue_live :
    (pick : Bool) (msg : TelemetryMessage) (p : Processor)
    → IsLive p
    → Accepted (select_enqueue pick (some msg) p)
unfolding select_enqueue
select_enqueue_live pick msg p v = elim (Bool-cases (has_room p.jobs)) [
  | inl room ↦ rw (v.open_jobs, room, v.open_stop, select_enqueue, Accepted) (ground (arith, v))
  | inr full ↦ rw (v.open_jobs, full, v.open_stop, select_enqueue, Accepted) tt
]

pub true-ne-false : true ≡ false → ⊥
true-ne-false h = cc h

-- Before the processor is stopped.
pub record IsUp (proc : Processor) (refused : List TelemetryMessage) (crashed : Bool) : Type 0 where
  pub live : IsLive proc
  pub none_refused : refused ≡ []
  pub fine : crashed ≡ false

module _ (marshal : TelemetryMessage → Result String (List ℕ)) where
  pub record Inv (s : Live) : Type 0 where
    pub content : s.failed ≡ false → s.file ≡ record_all marshal (reverse s.written) []
    pub none_missed : s.failed ≡ false → s.file_open ≡ true → s.missed ≡ []
    pub open_file : s.file_open ≡ is_serving s.stage
    pub up : is_over s.stage ≡ false → IsUp s.proc s.refused s.crashed

  -- A step that leaves the file as it is, and the pool live.
  pub keeps :
      (s : Live) (inputs : Side → Channel TelemetryMessage) (hands : Side → Hand) (b : Bool)
      (q : Processor) (stage : Stage) (taken accepted : List TelemetryMessage)
      → Inv s
      → (b ≡ true → s.file_open ≡ true)
      → b ≡ is_serving stage
      → (is_over stage ≡ false → (is_over s.stage ≡ false) × IsLive q)
      → Inv (record s {
        inputs = inputs;
        hands = hands;
        file_open = b;
        proc = q;
        stage = stage;
        taken = taken;
        accepted = accepted;
      })
  keeps s inputs hands b q stage taken accepted v o e up = record {
    content = v.content;
    none_missed = λ f h. v.none_missed f (o h);
    open_file = e;
    up = λ h.
        let (still, live) = up h in
        let u = v.up still in record { live = live; none_refused = u.none_refused; fine = u.fine };
  }

  -- A step of a forwarder that neither writes nor refuses.
  pub walks :
      (s : Live) (inputs : Side → Channel TelemetryMessage) (hands : Side → Hand)
      (taken : List TelemetryMessage)
      → Inv s
      → Inv (record s { inputs = inputs; hands = hands; taken = taken })
  walks s inputs hands taken v =
      keeps s inputs hands s.file_open s.proc s.stage taken s.accepted v (λ h. h) v.open_file
        (λ h. (h, (v.up h).live))

  -- A deferred call behind that of the recorder.
  pub steps_on :
      (s : Live) (inputs : Side → Channel TelemetryMessage) (q : Processor) (before stage : Stage)
      → Inv s
      → s.stage ≡ before
      → is_serving before ≡ is_serving stage
      → is_over before ≡ false
      → (is_over stage ≡ false → IsLive s.proc → IsLive q)
      → Inv (record s { inputs = inputs; proc = q; stage = stage })
  steps_on s inputs q before stage v e same busy alive =
      let still = ap is_over e ∙ busy in
      keeps s inputs s.hands s.file_open q stage s.taken s.accepted v (λ h. h)
        (v.open_file ∙ ap is_serving e ∙ same) (λ h. (still, alive h (v.up still).live))

  pub select-Inv :
      (s : Live) (side : Side) (msg : TelemetryMessage) (pick : Bool)
      → Inv s
      → is_over s.stage ≡ false
      → Accepted (select_enqueue pick (some msg) s.proc)
  select-Inv s side msg pick v h = select_enqueue_live pick msg s.proc (v.up h).live
