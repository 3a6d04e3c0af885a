-- ===== src/Ingestion/Tcp.antt =====
-- internal/ingestion/tcp.go: what the accept loop, the handler of a connection and `Stop` do to the
-- listener. How they interleave is the matter of `Connections`. A connection is a number. What the
-- sockets give is an argument; the text of an error message is what it is made of. Log lines are
-- left out.
use sentinelstream.Prelude.{
  ℕ, ◌==◌, Bool, true, false, not, Option, none, some, List, [], ◌∷◌, String, Result, ok, err,
  if◌then◌else◌, ℤ, pos, ◌+ℤ◌, ◌-ℤ◌, length, keep, add64, Outcome, returns, panics, then_do,
  Channel, make, close,
}
use sentinelstream.Clock.{Time}
use sentinelstream.Protocol.Types.{TelemetryMessage}
use sentinelstream.Protocol.Parser.{Codec, ParseError, parse_telemetry_message}
use sentinelstream.Ingestion.Udp.{StartError, already_running, no_socket, offer}

-- `maxTCPLineSize`, 1 << 20
abbrev pub max_tcp_line_size : ℕ
max_tcp_line_size = 1048576

-- An error, with the address of the connection that it came from.
pub data TcpError : Type 0 where
  accept_failed : String → TcpError
  rejected : String → ParseError → TcpError
  read_failed : String → String → TcpError

pub record TcpListener : Type 0 where
  pub port : ℤ
  pub messages : Channel TelemetryMessage
  pub errors : Channel TcpError
  pub stop_closed : Bool
  pub is_running : Bool
  pub messages_received : ℕ
  pub messages_rejected : ℕ
  pub active_connections : ℤ
  pub total_connections : ℕ
  pub connections : List ℕ
  pub last_error_time : Time
  pub last_error_message : Option TcpError

-- The buffer size is not negative.
unfoldable pub new_tcp_listener : ℤ → ℕ → TcpListener
new_tcp_listener port buffer_size = record {
  port = port;
  messages = make buffer_size;
  errors = make 10;
  stop_closed = false;
  is_running = false;
  messages_received = 0;
  messages_rejected = 0;
  active_connections = pos 0;
  total_connections = 0;
  connections = [];
  last_error_time = pos 0;
  last_error_message = none;
}

-- `some e`: `net.Listen` fails with the error `e`.
unfoldable pub start : Option String → TcpListener → TcpListener × Option StartError
start bound l = if l.is_running then (l, some already_running) else (elim bound [
  | some e ↦ (l, some (no_socket e))
  | none ↦ (record l { is_running = true }, none)
])

-- `l.lastErrorTime` and `l.lastErrorMessage`
abbrev pub note_error : Time → TcpError → TcpListener → TcpListener
note_error now e l = record l { last_error_time = now; last_error_message = some e }

-- The accept loop has a new connection: it puts it into the map, and counts it twice.
abbrev pub insert_connection : ℕ → TcpListener → TcpListener
insert_connection conn l = record l { connections = conn ∷ l.connections }

abbrev pub count_active : TcpListener → TcpListener
count_active l = record l { active_connections = l.active_connections +ℤ pos 1 }

abbrev pub count_total : TcpListener → TcpListener
count_total l = record l { total_connections = add64 l.total_connections 1 }

unfoldable pub open_connection : ℕ → TcpListener → TcpListener
open_connection conn l = count_total (count_active (insert_connection conn l))

-- The deferred function of the handler.
unfoldable pub close_connection : ℕ → TcpListener → TcpListener
close_connection conn l = record l {
  connections = keep (λ c. not (c == conn)) l.connections;
  active_connections = l.active_connections -ℤ pos 1;
}

-- Where a handler, or the accept loop, stands: at its next read, or at a select that sends.
pub data Phase : Type 0 where
  reading : Phase
  sending : TelemetryMessage → Phase
  reporting : TcpError → Phase

-- The accept loop behind an error of `Accept`; `none`: it returns.
unfoldable pub fail_accept : Time → String → TcpListener → TcpListener × Option Phase
fail_accept now e l =
    if not l.is_running
    then (l, none)
    else (note_error now (accept_failed e) l, some (reporting (accept_failed e)))

-- The handler with the parser's result, up to its select.
unfoldable pub note_parsed :
    Time → String → Result ParseError TelemetryMessage → TcpListener → TcpListener × Phase
note_parsed now from (err e) l = (
  note_error now (rejected from e) (record l { messages_rejected = add64 l.messages_rejected 1 }),
  reporting (rejected from e),
)
note_parsed now from (ok msg) l =
    (record l { messages_received = add64 l.messages_received 1 }, sending msg)

-- The readings of the clock for a line: in the parser, and for an error.
pub record Readings : Type 0 where
  pub parsed : Time
  pub noted : Time

-- The handler with a line, up to its select.
unfoldable pub handle_line : Codec → Readings → String → List ℕ → TcpListener → TcpListener × Phase
unfolding note_parsed
handle_line codec at from line l =
    if length line == 0
    then (l, reading)
    else note_parsed at.noted from (parse_telemetry_message codec at.parsed line) l

-- The select at which a phase stands: the listener and whether the loop goes on behind it.
unfoldable pub select_phase : Bool → Phase → TcpListener → Outcome (TcpListener × Bool)
select_phase picks_send reading l = returns (l, true)
select_phase picks_send (sending msg) l =
    then_do (offer picks_send msg l.messages l.stop_closed) (λ r. elim r [
      | some ch ↦ returns (record l { messages = ch }, true)
      | none ↦ returns (l, false)
    ])
select_phase picks_send (reporting e) l =
    then_do (offer picks_send e l.errors l.stop_closed) (λ r. elim r [
      | some ch ↦ returns (record l { errors = ch }, true)
      | none ↦ returns (l, false)
    ])

-- What the handler notes behind its last line: the error of the scanner, if there is one.
unfoldable pub end_scan : Time → String → Option String → TcpListener → TcpListener
end_scan now from none l = l
end_scan now from (some e) l = note_error now (read_failed from e) l

-- The steps of `Stop` that change the listener, up to its wait and behind it.
unfoldable pub stop_mark : TcpListener → TcpListener
stop_mark l = record l { is_running = false }

unfoldable pub stop_signal : TcpListener → Outcome TcpListener
stop_signal l = if l.stop_closed then panics else returns (record l { stop_closed = true })

unfoldable pub close_channels : TcpListener → Outcome TcpListener
unfolding close
close_channels l = then_do (close l.messages) (λ messages.
    then_do (close l.errors)
      (λ errors. returns (record l { messages = messages; errors = errors })))

pub record TcpListenerStats : Type 0 where
  pub messages_received : ℕ
  pub messages_rejected : ℕ
  pub active_connections : ℤ
  pub total_connections : ℕ
  pub last_error_time : Time
  pub last_error_message : Option TcpError
  pub is_running : Bool

unfoldable pub stats : TcpListener → TcpListenerStats
stats l = record {
  messages_received = l.messages_received;
  messages_rejected = l.messages_rejected;
  active_connections = l.active_connections;
  total_connections = l.total_connections;
  last_error_time = l.last_error_time;
  last_error_message = l.last_error_message;
  is_running = l.is_running;
}
