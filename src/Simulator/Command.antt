-- ===== src/Simulator/Command.antt =====
-- cmd/simulator/main.go: the simulator in a goroutine, and the loop that passes its messages on. The
-- text of what is printed is left out, and so are signals but for their effect on the loop.
pub mod Steps
pub mod Sent
pub mod Turning
pub mod States
pub mod Invariant
use mathlib.Core.Option
use sentinelstream.Prelude.{
  ℕ, ◌+◌, Bool, true, false, Option, none, some, List, [], ◌∷◌, ◌++◌, String, str_eq, Result, ok,
  err, if◌then◌else◌, ℤ, pos, ltb_ℤ, Channel, make,
}
use sentinelstream.Clock.{Time, Duration, elapsed}
use sentinelstream.Protocol.Types.{TelemetryMessage}
use sentinelstream.Simulator.Random.{Random, Marshaller}
use sentinelstream.Simulator.Flags.{sensor_types}
use sentinelstream.Simulator.Running.{Simulator, SimulatorConfig, new_simulator}
use sentinelstream.Simulator.Sender.{
  Sender, udp_sender, tcp_sender, DialError, SendError, new_sender, udp_send, tcp_send,
}

pub record Flags : Type 0 where
  pub sensors : ℤ
  pub rate : ℤ
  pub types : String
  pub verbose : Bool
  pub protocol_name : String
  pub target : String

abbrev pub config_of : Flags → SimulatorConfig
config_of flags = record {
  number_of_sensors = flags.sensors;
  message_rate_hz = flags.rate;
  sensor_types = sensor_types flags.types;
}

-- What the sender's connection has carried; without a target there is no sender.
pub data Wire : Type 0 where
  no_sender : Wire
  datagrams : List (List ℕ) → Wire
  stream : List ℕ → Wire

abbrev pub wire_of : {C : Type 0} → Sender C → Wire
wire_of (udp_sender conn) = datagrams []
wire_of (tcp_sender conn) = stream []

abbrev pub wire_to : {C : Type 0} → Result DialError (Sender C) → Result DialError Wire
wire_to (err e) = err e
wire_to (ok sender) = ok (wire_of sender)

unfoldable pub open_wire :
    {C : Type 0} → (String → String → Result String C) → Flags → Result DialError Wire
open_wire dial flags =
    if str_eq flags.target ""
    then ok no_sender
    else wire_to (new_sender dial flags.protocol_name flags.target)

-- How a write fails: with an error, behind so many bytes of a stream.
abbrev pub Failure : Type 0
Failure = Option (String × ℕ)

-- `sender.Send(msg)`
unfoldable pub send_over : Marshaller → Failure → TelemetryMessage → Wire → Wire × Option SendError
unfolding udp_send tcp_send
send_over marshal failure msg no_sender = (no_sender, none)
send_over marshal failure msg (datagrams ds) =
    let (ds', e) = udp_send marshal (Option.map (λ f. f.0) failure) msg ds in (datagrams ds', e)
send_over marshal failure msg (stream bytes) =
    let (bytes', e) = tcp_send marshal failure msg bytes in (stream bytes', e)

-- What is printed: an error of the sender, a message with its number, the summary, the end of the
-- program, an error of the simulator.
pub data Line : Type 0 where
  send_error : SendError → Line
  shown : ℕ → TelemetryMessage → Line
  summary : ℕ → Duration → Line
  farewell : ℕ → Duration → Line
  simulator_error : Line

-- The variables of the loop, and what was printed.
pub record Front : Type 0 where
  pub wire : Wire
  pub message_count : ℕ
  pub start_time : Time
  pub last_print_time : Time
  pub printed : List Line

-- The readings of the clock in a round: for the test, for the summary, and for its time.
pub record Readings : Type 0 where
  pub tested : Time
  pub measured : Time
  pub noted : Time

abbrev pub error_lines : Option SendError → List Line
error_lines none = []
error_lines (some e) = send_error e ∷ []

-- `if time.Since(lastPrintTime) > 5*time.Second { … }`
unfoldable pub summarise : Readings → Front → Front
summarise at f =
    if ltb_ℤ (pos 5000000000) (elapsed at.tested f.last_print_time)
    then record f {
      last_print_time = at.noted;
      printed = f.printed ++ summary f.message_count (elapsed at.measured f.start_time) ∷ [];
    }
    else f

-- What the loop does with a message.
unfoldable pub pass_on : Marshaller → Bool → Failure → Readings → TelemetryMessage → Front → Front
unfolding send_over summarise
pass_on marshal verbose failure at msg f =
    let count = f.message_count + 1 in
    let (wire, e) = send_over marshal failure msg f.wire in
    let lines = error_lines e ++ (if verbose then shown count msg ∷ [] else []) in
    summarise at (record f { wire = wire; message_count = count; printed = f.printed ++ lines })

-- Where the goroutine of the simulator stands: before the checks of `Run`, in its loop, at its end.
pub data Working (S : Type 0) : Type 0 where
  launching : Simulator S → Working S
  running : Simulator S → Working S
  ended : Working S

-- Where `main` stands: at its select, behind `cancel()`, at its end.
pub data Place : Type 0 where
  looping leaving returned : Place

-- `made` and `tries` are no part of the program: they record the messages that went into the channel,
-- and those that came out of it with the failures of their writes, the newest first.
pub record Command (S : Type 0) : Type 0 where
  pub working : Working S
  pub messages : Channel TelemetryMessage
  pub cancelled : Bool
  pub front : Front
  pub place : Place
  pub crashed : Bool
  pub made : List TelemetryMessage
  pub tries : List (TelemetryMessage × Failure)

-- The state before the loop.
abbrev pub begin : {S : Type 0} → Simulator S → Wire → Time → Command S
begin sim wire now = record {
  working = launching sim;
  messages = make 100;
  cancelled = false;
  front = record {
    wire = wire;
    message_count = 0;
    start_time = now;
    last_print_time = now;
    printed = [];
  };
  place = looping;
  crashed = false;
  made = [];
  tries = [];
}

abbrev pub begin_with :
    {S : Type 0} → Simulator S → Time → Result DialError Wire → Result DialError (Command S)
begin_with sim now (err e) = err e
begin_with sim now (ok wire) = ok (begin sim wire now)

-- `main` up to its loop.
unfoldable pub start_command :
    {S C : Type 0}
    → Random S
    → (String → ℕ → String)
    → (String → String → Result String C)
    → Flags
    → S
    → Time
    → Result DialError (Command S)
start_command rand sprintf dial flags source now =
    let sim = new_simulator rand sprintf (config_of flags) source in
    begin_with sim now (open_wire dial flags)
