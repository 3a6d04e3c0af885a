-- ===== src/Simulator/Command/Steps.antt =====
-- The goroutine of the simulator and the loop of `main`, in any order of their steps.
use sentinelstream.Prelude.{
  ◌≡◌, Bool, true, false, List, [], ◌∷◌, ◌++◌, ◌≤ℤ◌, returns, panics, Channel, send, close,
}
use sentinelstream.Clock.{Time, Duration, elapsed}
use sentinelstream.Protocol.Types.{TelemetryMessage}
use sentinelstream.Simulator.Random.{Random, Marshaller}
use sentinelstream.Simulator.Running.{
  Simulator, Launch, no_sensors, divides_by_zero, bad_interval, ticks_every, launch, Event, ticks,
  going, cancelled, crashed, turn,
}
use sentinelstream.Simulator.Command.{
  Command, Working, launching, running, ended, Place, looping, leaving, returned, Failure, Readings,
  pass_on, farewell, simulator_error,
}

abbrev pub has_returned : Place → Bool
has_returned looping = false
has_returned leaving = false
has_returned returned = true

-- Has the goroutine come to its end?
abbrev pub has_ended : {S : Type 0} → Working S → Bool
has_ended (launching sim) = false
has_ended (running sim) = false
has_ended ended = true

-- `Run` panics before its loop.
abbrev pub IsFatal : Launch → Type 0
IsFatal no_sensors = ⊥
IsFatal divides_by_zero = Unit
IsFatal (bad_interval d) = Unit
IsFatal (ticks_every d) = ⊥

module _ {S : Type 0} (rand : Random S) (marshal : Marshaller) (verbose : Bool) where
  pub data Step (c : Command S) : Command S → Type 0 where
    -- `Run` starts its loop, returns an error, or panics.
    launch_well :
        (sim : Simulator S) (d : Duration)
        → c.crashed ≡ false
        → has_returned c.place ≡ false
        → c.working ≡ launching sim
        → launch sim ≡ ticks_every d
        → Step c (record c { working = running sim })
    launch_empty :
        (sim : Simulator S) (ch : Channel TelemetryMessage)
        → c.crashed ≡ false
        → has_returned c.place ≡ false
        → c.working ≡ launching sim
        → launch sim ≡ no_sensors
        → close c.messages ≡ returns ch
        → Step c (record c {
          working = ended;
          messages = ch;
          front = record (c.front) { printed = c.front.printed ++ simulator_error ∷ [] };
        })
    launch_fatal :
        (sim : Simulator S)
        → c.crashed ≡ false
        → has_returned c.place ≡ false
        → c.working ≡ launching sim
        → IsFatal (launch sim)
        → Step c (record c { crashed = true })
    -- A tick makes a message that goes into the channel,
    produce :
        (sim sim' : Simulator S) (now : Time) (msg : TelemetryMessage)
        (ch : Channel TelemetryMessage)
        → c.crashed ≡ false
        → has_returned c.place ≡ false
        → c.working ≡ running sim
        → turn rand marshal (ticks now true) sim ≡ (msg ∷ [], going sim')
        → send msg c.messages ≡ returns ch
        → Step c (record c { working = running sim'; messages = ch; made = msg ∷ c.made })
    -- or the program panics,
    produce_crash :
        (sim : Simulator S) (now : Time) (sent : Bool) (msgs : List TelemetryMessage)
        → c.crashed ≡ false
        → has_returned c.place ≡ false
        → c.working ≡ running sim
        → turn rand marshal (ticks now sent) sim ≡ (msgs, crashed)
        → Step c (record c { crashed = true })
    produce_closed :
        (sim : Simulator S) (msg : TelemetryMessage)
        → c.crashed ≡ false
        → has_returned c.place ≡ false
        → c.working ≡ running sim
        → send msg c.messages ≡ panics
        → Step c (record c { crashed = true })
    -- or `Run` finds the context cancelled, and the channel is closed behind it.
    stop :
        (sim sim' : Simulator S) (e : Event) (msgs : List TelemetryMessage)
        (ch : Channel TelemetryMessage)
        → c.crashed ≡ false
        → has_returned c.place ≡ false
        → c.working ≡ running sim
        → c.cancelled ≡ true
        → turn rand marshal e sim ≡ (msgs, cancelled sim')
        → close c.messages ≡ returns ch
        → Step c (record c { working = ended; messages = ch })
    close_closed :
        c.crashed ≡ false
        → has_returned c.place ≡ false
        → has_ended c.working ≡ false
        → close c.messages ≡ panics
        → Step c (record c { crashed = true })
    -- `main` receives a message; the clock does not go backwards.
    receive :
        (failure : Failure) (at : Readings) (msg : TelemetryMessage) (rest : List TelemetryMessage)
        → c.crashed ≡ false
        → c.place ≡ looping
        → c.messages.buffer ≡ msg ∷ rest
        → at.tested ≤ℤ at.noted
        → Step c (record c {
          messages = record (c.messages) { buffer = rest };
          front = pass_on marshal verbose failure at msg c.front;
          tries = (msg, failure) ∷ c.tries;
        })
    -- `main` finds the channel closed and returns.
    finish :
        c.crashed ≡ false
        → c.place ≡ looping
        → c.messages.closed ≡ true
        → c.messages.buffer ≡ []
        → Step c (record c { place = returned })
    -- A signal: `main` cancels the context, prints, and returns.
    interrupt :
        (now : Time)
        → c.crashed ≡ false
        → c.place ≡ looping
        → Step c (record c {
          cancelled = true;
          front = record (c.front) {
            printed =
                c.front.printed
                ++ farewell c.front.message_count (elapsed now c.front.start_time) ∷ [];
          };
          place = leaving;
        })
    leave : c.crashed ≡ false → c.place ≡ leaving → Step c (record c { place = returned })

  pub data Reach (c : Command S) : Command S → Type 0 where
    here : Reach c c
    next : {d e : Command S} → Reach c d → Step d e → Reach c e
