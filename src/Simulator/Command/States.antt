-- ===== src/Simulator/Command/States.antt =====
-- What holds of a state of the command, and the steps that neither send nor receive.
use mathlib.Core.List.{reverse}
use sentinelstream.Prelude.{
  ◌≤◌, ◌≡◌, sym, ap, subst, ◌∙◌, Bool, true, false, List, [], ◌++◌, map, length, arith, ℤ, Channel,
}
use sentinelstream.Protocol.Types.{TelemetryMessage}
use sentinelstream.Simulator.Random.{Random, Marshaller}
use sentinelstream.Simulator.Running.{Simulator, Event, going, launch, ticks_every, run}
use sentinelstream.Simulator.Command.{
  Wire, Command, Working, launching, running, ended, Place, Front,
}
use sentinelstream.Simulator.Command.Steps.{has_ended, IsFatal}
use sentinelstream.Simulator.Command.Sent.{loaded, IsPaced}
use sentinelstream.Simulator.Command.Turning.{InRange}

module _ {S : Type 0} (rand : Random S) (marshal : Marshaller) where
  -- The messages are those that `Run` sends for some events, and the simulator is where they lead it.
  abbrev pub IsAt : Simulator S → List TelemetryMessage → Working S → Type 0
  IsAt sim₀ made (launching sim) = (sim ≡ sim₀) × (made ≡ [])
  IsAt sim₀ made (running sim) =
      InRange sim
      × ((events : List Event) × (run rand marshal events sim₀ ≡ (reverse made, going sim)))
  IsAt sim₀ made ended = (events : List Event) × ((run rand marshal events sim₀).0 ≡ reverse made)

  pub record Inv (sim₀ : Simulator S) (wire₀ : Wire) (c : Command S) : Type 0 where
    pub fatal : c.crashed ≡ true → IsFatal (launch sim₀)
    pub run_so_far : IsAt sim₀ c.made c.working
    pub closed : c.messages.closed ≡ has_ended c.working
    pub capacity : c.messages.capacity ≡ 100
    pub bounded : length c.messages.buffer ≤ 100
    pub fifo : reverse c.made ≡ reverse (map (λ t. t.0) c.tries) ++ c.messages.buffer
    pub counted : c.front.message_count ≡ length c.tries
    pub carried : c.front.wire ≡ loaded marshal c.tries wire₀
    pub paced : IsPaced c.front

  pub launch-InRange :
      (sim : Simulator S) (d : ℤ)
      → sim.generator_index ≡ 0
      → launch sim ≡ ticks_every d
      → InRange sim
  unfolding launch
  launch-InRange sim d z h = ground (arith, h, z)

  module _ (sim₀ : Simulator S) (wire₀ : Wire) (c : Command S) (v : Inv sim₀ wire₀ c) where
    abbrev pub at : (w : Working S) → c.working ≡ w → IsAt sim₀ c.made w
    at w e = subst (IsAt sim₀ c.made) e v.run_so_far

    -- A step that neither sends nor receives.
    pub keeps :
        (w : Working S) (ch : Channel TelemetryMessage) (b : Bool) (front : Front) (place : Place)
        → IsAt sim₀ c.made w
        → ch.closed ≡ has_ended w
        → ch.capacity ≡ c.messages.capacity
        → ch.buffer ≡ c.messages.buffer
        → front.wire ≡ c.front.wire
        → front.message_count ≡ c.front.message_count
        → IsPaced front
        → Inv sim₀ wire₀
            (record c { working = w; messages = ch; cancelled = b; front = front; place = place })
    keeps w ch b front place r x y z wire n p = record {
      fatal = v.fatal;
      run_so_far = r;
      closed = x;
      capacity = y ∙ v.capacity;
      bounded = omega (arith, ap length z, v.bounded);
      fifo = v.fifo ∙ ap (λ l. reverse (map (λ t. t.0) c.tries) ++ l) (sym z);
      counted = n ∙ v.counted;
      carried = wire ∙ v.carried;
      paced = p;
    }

    -- While the goroutine is at work its channel is open.
    pub open_channel : has_ended c.working ≡ false → c.messages.closed ≡ true → ⊥
    open_channel h k = cc (v.closed, h, k)
