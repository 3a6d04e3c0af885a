-- ===== src/Ingestion/Udp.antt =====
-- internal/ingestion/udp.go. What the socket gives is an argument; the text of an error message is
-- the address and the error that it is made of. Log lines are left out.
use sentinelstream.Prelude.{
  ℕ, ◌==◌, Bool, true, false, not, ◌&&◌, ◌||◌, Option, none, some, List, String, Result, ok, err,
  if◌then◌else◌, ℤ, pos, length, add64, Outcome, returns, panics, blocks, then_do, Channel, make,
  has_room, send, close,
}
use sentinelstream.Clock.{Time}
use sentinelstream.Protocol.Types.{TelemetryMessage}
use sentinelstream.Protocol.Parser.{Codec, ParseError, parse_telemetry_message}

-- What is sent as an error; the error of a message that does not parse has its address.
pub data ReceiveError : Type 0 where
  read_failed : String → ReceiveError
  rejected : String → ParseError → ReceiveError

pub data StartError : Type 0 where
  already_running : StartError
  no_socket : String → StartError

pub record UdpListener : Type 0 where
  pub port : ℤ
  pub max_message_size : ℕ
  pub messages : Channel TelemetryMessage
  pub errors : Channel ReceiveError
  pub stop_closed : Bool
  pub is_running : Bool
  pub messages_received : ℕ
  pub messages_rejected : ℕ
  pub last_error_time : Time
  pub last_error_message : Option (String × ReceiveError)

-- The buffer size is not negative.
unfoldable pub new_udp_listener : ℤ → ℕ → UdpListener
new_udp_listener port buffer_size = record {
  port = port;
  max_message_size = 65507;
  messages = make buffer_size;
  errors = make 10;
  stop_closed = false;
  is_running = false;
  messages_received = 0;
  messages_rejected = 0;
  last_error_time = pos 0;
  last_error_message = none;
}

-- `some e`: `net.ListenUDP` fails with the error `e`.
unfoldable pub start : Option String → UdpListener → UdpListener × Option StartError
start bound l = if l.is_running then (l, some already_running) else (elim bound [
  | some e ↦ (l, some (no_socket e))
  | none ↦ (record l { is_running = true }, none)
])

-- `Stop` before its wait for the receive loop, and behind it.
unfoldable pub stop_receiving : UdpListener → Outcome UdpListener
stop_receiving l =
    if l.stop_closed then panics else returns (record l { is_running = false; stop_closed = true })

unfoldable pub close_channels : UdpListener → Outcome UdpListener
unfolding close
close_channels l = then_do (close l.messages) (λ messages.
    then_do (close l.errors)
      (λ errors. returns (record l { messages = messages; errors = errors })))

unfoldable pub stop : UdpListener → Outcome UdpListener
unfolding stop_receiving close_channels
stop l = if l.is_running then then_do (stop_receiving l) close_channels else returns l

-- `select { case ch <- x: case <-l.stopChan: }`: the new channel, or `none` for the second case.
-- Where both are ready Go picks one: `picks_send` is its choice.
abbrev pub offer {ℓ} : {A : Type ℓ} → Bool → A → Channel A → Bool → Outcome (Option (Channel A))
unfolding send
offer picks_send x ch stopped =
    if (ch.closed || has_room ch) && (not stopped || picks_send)
    then then_do (send x ch) (λ ch'. returns (some ch'))
    else if stopped
    then returns none
    else blocks

-- How a round of the receive loop ends: with the next round, with the end of the loop, at a select
-- that waits, or with a panic.
pub data Round : Type 0 where
  goes_on : UdpListener → Round
  leaves : UdpListener → Round
  waits : UdpListener → Round
  crashes : Round

abbrev pub round_of {ℓ} :
    {A : Type ℓ} → UdpListener → (Channel A → UdpListener) → Outcome (Option (Channel A)) → Round
round_of l next (returns (some ch)) = goes_on (next ch)
round_of l next (returns none) = leaves l
round_of l next panics = crashes
round_of l next blocks = waits l

-- What `ReadFromUDP` returns: a sender with an error or with the bytes of a datagram.
pub record Received : Type 0 where
  pub remote_addr : String
  pub content : Result String (List ℕ)

-- The readings of the clock in a round: in the parser, and for an error.
pub record Readings : Type 0 where
  pub parsed : Time
  pub noted : Time

-- `l.lastErrorTime` and `l.lastErrorMessage`, which names the address, and the send to `errorsChan`.
unfoldable pub report_error : Bool → Time → String → ReceiveError → UdpListener → Round
report_error picks_send now from e l =
    let noted = record l { last_error_time = now; last_error_message = some (from, e) } in
    round_of noted (λ ch. record noted { errors = ch }) (offer picks_send e l.errors l.stop_closed)

-- What the loop does with a message, or with the parser's error.
unfoldable pub handle_parsed :
    Bool → Time → String → Result ParseError TelemetryMessage → UdpListener → Round
unfolding report_error
handle_parsed picks_send now from (err e) l =
    report_error picks_send now from (rejected from e)
      (record l { messages_rejected = add64 l.messages_rejected 1 })
handle_parsed picks_send now from (ok msg) l =
    let counted = record l { messages_received = add64 l.messages_received 1 } in
    round_of counted (λ ch. record counted { messages = ch })
      (offer picks_send msg l.messages l.stop_closed)

-- What the loop does with what it has read.
unfoldable pub handle_content :
    Codec → Bool → Readings → String → Result String (List ℕ) → UdpListener → Round
unfolding handle_parsed report_error
handle_content codec picks_send at from (err e) l =
    if not l.is_running then leaves l else report_error picks_send at.noted from (read_failed e) l
handle_content codec picks_send at from (ok bytes) l =
    if length bytes == 0
    then goes_on l
    else handle_parsed picks_send at.noted from (parse_telemetry_message codec at.parsed bytes) l

-- One round of `receiveLoop`; the bytes fit into its buffer.
unfoldable pub receive_round : Codec → Bool → Readings → Received → UdpListener → Round
unfolding handle_content
receive_round codec picks_send at got l =
    if l.stop_closed
    then leaves l
    else handle_content codec picks_send at got.remote_addr got.content l

pub record ListenerStats : Type 0 where
  pub messages_received : ℕ
  pub messages_rejected : ℕ
  pub last_error_time : Time
  pub last_error_message : Option (String × ReceiveError)
  pub is_running : Bool

unfoldable pub stats : UdpListener → ListenerStats
stats l = record {
  messages_received = l.messages_received;
  messages_rejected = l.messages_rejected;
  last_error_time = l.last_error_time;
  last_error_message = l.last_error_message;
  is_running = l.is_running;
}
