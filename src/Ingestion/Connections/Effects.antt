-- ===== src/Ingestion/Connections/Effects.antt =====
-- What each step of the TCP listener does to its channels and counters.
use sentinelstream.Prelude.{
  ℕ, ◌+◌, ◌%◌, ◌<◌, ◌≡◌, Bool, true, false, Option, none, some, List, [], ◌∷◌, ◌++◌, String, length,
  u64_mod, returns, panics, arith, ◌⊎◌, send, close, ℤ,
}
use sentinelstream.Protocol.Types.{TelemetryMessage}
use sentinelstream.Protocol.Parser.{Codec}
use sentinelstream.Ingestion.Tcp.{
  TcpListener, TcpError, Phase, Readings, reading, sending, reporting, fail_accept, handle_line,
  note_parsed, select_phase, end_scan, stop_mark, stop_signal, close_channels,
}
use sentinelstream.Ingestion.Connections.{given_up}

-- What an operation leaves as it was.
pub record Kept (l l' : TcpListener) : Type 0 where
  pub closed_messages : l'.messages.closed ≡ l.messages.closed
  pub closed_errors : l'.errors.closed ≡ l.errors.closed
  pub capacity : l'.messages.capacity ≡ l.messages.capacity
  pub active : l'.active_connections ≡ l.active_connections
  pub total : l'.total_connections ≡ l.total_connections
  pub stop_closed : l'.stop_closed ≡ l.stop_closed

pub record Quiet (l l' : TcpListener) : Type 0 where
  pub kept : Kept l l'
  pub buffer : l'.messages.buffer ≡ l.messages.buffer
  pub received : l'.messages_received ≡ l.messages_received

pub fail_accept-Quiet :
    (now : ℤ) (e : String) (l l' : TcpListener) (o : Option Phase)
    → fail_accept now e l ≡ (l', o)
    → Quiet l l'
unfolding fail_accept
fail_accept-Quiet now e l l' o h = ground arith

pub select_phase-Quiet :
    (pick : Bool) (phase : Phase) (l l' : TcpListener)
    → select_phase pick phase l ≡ returns (l', false)
    → Quiet l l'
unfolding select_phase send
select_phase-Quiet pick phase l l' h = ground arith

-- Behind its select a handler that reports goes on as it was; one that sends has put its message
-- into the channel.
pub select_reporting-Quiet :
    (pick : Bool) (e : TcpError) (l l' : TcpListener)
    → select_phase pick (reporting e) l ≡ returns (l', true)
    → Quiet l l'
unfolding select_phase send
select_reporting-Quiet pick e l l' h = ground arith

pub record Delivery (msg : TelemetryMessage) (l l' : TcpListener) : Type 0 where
  pub kept : Kept l l'
  pub buffer : l'.messages.buffer ≡ l.messages.buffer ++ msg ∷ []
  pub room : length l.messages.buffer < l.messages.capacity
  pub received : l'.messages_received ≡ l.messages_received

pub select_sending-Delivery :
    (pick : Bool) (msg : TelemetryMessage) (l l' : TcpListener)
    → select_phase pick (sending msg) l ≡ returns (l', true)
    → Delivery msg l l'
unfolding select_phase send
select_sending-Delivery pick msg l l' h = ground arith

-- The accept loop never sends a message.
pub select_phase_kept :
    (pick : Bool) (phase : Phase) (l l' : TcpListener) (b : Bool)
    → given_up phase ≡ 0
    → select_phase pick phase l ≡ returns (l', b)
    → Quiet l l'
unfolding select_phase send
select_phase_kept pick reading l l' b z h = ground arith
select_phase_kept pick (sending msg) l l' b z h = ground arith
select_phase_kept pick (reporting e) l l' b z h = ground arith

pub record Parsed (phase : Phase) (l l' : TcpListener) : Type 0 where
  pub kept : Kept l l'
  pub buffer : l'.messages.buffer ≡ l.messages.buffer
  pub received : l'.messages_received % u64_mod ≡ (l.messages_received + given_up phase) % u64_mod

pub handle_line-Parsed :
    (codec : Codec) (at : Readings) (from : String) (bytes : List ℕ) (l l' : TcpListener)
    (phase : Phase)
    → handle_line codec at from bytes l ≡ (l', phase)
    → Parsed phase l l'
unfolding handle_line note_parsed
handle_line-Parsed codec at from bytes l l' phase h = ground arith

pub select_phase_panics :
    (pick : Bool) (phase : Phase) (l : TcpListener)
    → select_phase pick phase l ≡ panics
    → (l.messages.closed ≡ true) ⊎ (l.errors.closed ≡ true)
unfolding select_phase send
select_phase_panics pick reading l h = ground arith
select_phase_panics pick (sending msg) l h = ground arith
select_phase_panics pick (reporting e) l h = ground arith

pub end_scan-Quiet :
    (now : ℤ) (from : String) (e : Option String) (l : TcpListener)
    → Quiet l (end_scan now from e l)
unfolding end_scan
end_scan-Quiet now from none l = ground arith
end_scan-Quiet now from (some e) l = ground arith

-- What `Stop` leaves as it was up to its wait, whichever signal it gives.
pub record Still (l l' : TcpListener) : Type 0 where
  pub closed_messages : l'.messages.closed ≡ l.messages.closed
  pub closed_errors : l'.errors.closed ≡ l.errors.closed
  pub capacity : l'.messages.capacity ≡ l.messages.capacity
  pub active : l'.active_connections ≡ l.active_connections
  pub total : l'.total_connections ≡ l.total_connections
  pub buffer : l'.messages.buffer ≡ l.messages.buffer
  pub received : l'.messages_received ≡ l.messages_received

pub stop_mark-Still : (l : TcpListener) → Still l (stop_mark l)
unfolding stop_mark
stop_mark-Still l = ground arith

pub Still-refl : (l : TcpListener) → Still l l
Still-refl l = ground arith

pub stop_signal-Still :
    (l l' : TcpListener) → stop_signal l ≡ returns l' → Still l l' × (l'.stop_closed ≡ true)
unfolding stop_signal
stop_signal-Still l l' h = ground arith

-- `Stop` panics only at a channel that is closed already.
pub stop_signal_panics : (l : TcpListener) → stop_signal l ≡ panics → l.stop_closed ≡ true
unfolding stop_signal
stop_signal_panics l h = ground arith

pub close_channels_panics :
    (l : TcpListener)
    → close_channels l ≡ panics
    → (l.messages.closed ≡ true) ⊎ (l.errors.closed ≡ true)
unfolding close_channels close
close_channels_panics l h = ground arith

pub fail_accept_reports :
    (now : ℤ) (e : String) (l l' : TcpListener) (phase : Phase)
    → fail_accept now e l ≡ (l', some phase)
    → given_up phase ≡ 0
unfolding fail_accept
fail_accept_reports now e l l' phase h = ground arith

pub record Closed (l l' : TcpListener) : Type 0 where
  pub messages : l'.messages.closed ≡ true
  pub errors : l'.errors.closed ≡ true
  pub capacity : l'.messages.capacity ≡ l.messages.capacity
  pub buffer : l'.messages.buffer ≡ l.messages.buffer
  pub active : l'.active_connections ≡ l.active_connections
  pub total : l'.total_connections ≡ l.total_connections
  pub received : l'.messages_received ≡ l.messages_received
  pub stop_closed : l'.stop_closed ≡ l.stop_closed

pub close_channels-Closed : (l l' : TcpListener) → close_channels l ≡ returns l' → Closed l l'
unfolding close_channels close
close_channels-Closed l l' h = ground arith
