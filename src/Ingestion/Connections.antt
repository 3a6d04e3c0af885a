-- ===== src/Ingestion/Connections.antt =====
-- The TCP listener at work: the accept loop, the handlers of its connections, one `Stop`, and whoever
-- receives from its channels, in any order of their steps.
pub mod Effects
pub mod States
pub mod Preserved
pub mod Invariant
pub mod Shutdown
use sentinelstream.Prelude.{
  ℕ, ◌+◌, ◌≡◌, Bool, true, false, Option, none, some, List, [], ◌∷◌, ◌++◌, String, if◌then◌else◌, ℤ,
  Outcome, returns, panics, Channel,
}
use sentinelstream.Clock.{Time}
use sentinelstream.Protocol.Types.{TelemetryMessage}
use sentinelstream.Protocol.Parser.{Codec}
use sentinelstream.Ingestion.Tcp.{
  TcpListener, TcpError, Phase, reading, sending, reporting, Readings, insert_connection,
  count_active, count_total, close_connection, fail_accept, handle_line, select_phase, end_scan,
  stop_mark, stop_signal, close_channels,
}

-- Where the accept loop stands: at `Accept`, behind it with a new connection, which is then in the map
-- of connections, and then counted as active, at a select, or at its end.
pub data Accepting : Type 0 where
  listening : Accepting
  arrived registered counted : ℕ → Accepting
  selecting : Phase → Accepting
  ended : Accepting

-- How far `Stop` is.
pub data Stopping : Type 0 where
  untouched marked signalled deaf swept done : Stopping

-- A running handler: its connection and where it stands.
abbrev pub Handler : Type 0
Handler = ℕ × Phase

-- `closed` are the connections that `Stop` has closed. `next_conn` is the number of the next
-- connection. `sent`, `taken` and `abandoned` are no part of the program: they record the messages
-- that went into the channel and out of it, the newest first, and how many a handler gave up at its
-- select because of `Stop`.
pub record System : Type 0 where
  pub listener : TcpListener
  pub accepting : Accepting
  pub handlers : List Handler
  pub socket_open : Bool
  pub closed : List ℕ
  pub next_conn : ℕ
  pub stopping : Stopping
  pub crashed : Bool
  pub sent : List TelemetryMessage
  pub taken : List TelemetryMessage
  pub abandoned : ℕ

-- Is it a message that is given up?
abbrev pub given_up : Phase → ℕ
given_up reading = 0
given_up (sending msg) = 1
given_up (reporting e) = 0

pub data Step (codec : Codec) (s : System) : System → Type 0 where
  -- `Accept` returns a connection; in later steps the accept loop registers it, counts it as active,
  -- and counts it once more and starts its handler.
  arrive :
      s.crashed ≡ false
      → s.accepting ≡ listening
      → s.socket_open ≡ true
      → Step codec s (record s { accepting = arrived s.next_conn; next_conn = s.next_conn + 1 })
  register :
      (conn : ℕ)
      → s.crashed ≡ false
      → s.accepting ≡ arrived conn
      → Step codec s
          (record s { listener = insert_connection conn s.listener; accepting = registered conn })
  count :
      (conn : ℕ)
      → s.crashed ≡ false
      → s.accepting ≡ registered conn
      → Step codec s (record s { listener = count_active s.listener; accepting = counted conn })
  launch :
      (conn : ℕ)
      → s.crashed ≡ false
      → s.accepting ≡ counted conn
      → Step codec s (record s {
        listener = count_total s.listener;
        accepting = listening;
        handlers = (conn, reading) ∷ s.handlers;
      })
  -- `Accept` fails: the loop ends, or stands at its select.
  fail_end :
      (now : Time) (e : String) (l : TcpListener)
      → s.crashed ≡ false
      → s.accepting ≡ listening
      → fail_accept now e s.listener ≡ (l, none)
      → Step codec s (record s { listener = l; accepting = ended })
  fail_select :
      (now : Time) (e : String) (l : TcpListener) (phase : Phase)
      → s.crashed ≡ false
      → s.accepting ≡ listening
      → fail_accept now e s.listener ≡ (l, some phase)
      → Step codec s (record s { listener = l; accepting = selecting phase })
  accept_select :
      (pick : Bool) (phase : Phase) (l : TcpListener) (goes_on : Bool)
      → s.crashed ≡ false
      → s.accepting ≡ selecting phase
      → select_phase pick phase s.listener ≡ returns (l, goes_on)
      → Step codec s (record s { listener = l; accepting = if goes_on then listening else ended })
  accept_crash :
      (pick : Bool) (phase : Phase)
      → s.crashed ≡ false
      → s.accepting ≡ selecting phase
      → select_phase pick phase s.listener ≡ panics
      → Step codec s (record s { crashed = true })
  -- A handler reads a line,
  line :
      (at : Readings) (from : String) (bytes : List ℕ) (conn : ℕ) (before behind : List Handler)
      (l : TcpListener) (phase : Phase)
      → s.crashed ≡ false
      → s.handlers ≡ before ++ (conn, reading) ∷ behind
      → handle_line codec at from bytes s.listener ≡ (l, phase)
      → Step codec s (record s { listener = l; handlers = before ++ (conn, phase) ∷ behind })
  -- comes through its select,
  deliver :
      (pick : Bool) (msg : TelemetryMessage) (conn : ℕ) (before behind : List Handler)
      (l : TcpListener)
      → s.crashed ≡ false
      → s.handlers ≡ before ++ (conn, sending msg) ∷ behind
      → select_phase pick (sending msg) s.listener ≡ returns (l, true)
      → Step codec s (record s {
        listener = l;
        handlers = before ++ (conn, reading) ∷ behind;
        sent = msg ∷ s.sent;
      })
  report :
      (pick : Bool) (e : TcpError) (conn : ℕ) (before behind : List Handler) (l : TcpListener)
      → s.crashed ≡ false
      → s.handlers ≡ before ++ (conn, reporting e) ∷ behind
      → select_phase pick (reporting e) s.listener ≡ returns (l, true)
      → Step codec s (record s { listener = l; handlers = before ++ (conn, reading) ∷ behind })
  -- leaves there because of `Stop`,
  leave :
      (pick : Bool) (phase : Phase) (conn : ℕ) (before behind : List Handler) (l : TcpListener)
      → s.crashed ≡ false
      → s.handlers ≡ before ++ (conn, phase) ∷ behind
      → select_phase pick phase s.listener ≡ returns (l, false)
      → Step codec s (record s {
        listener = close_connection conn l;
        handlers = before ++ behind;
        abandoned = s.abandoned + given_up phase;
      })
  -- panics, and the program with it,
  crash :
      (pick : Bool) (phase : Phase) (conn : ℕ) (before behind : List Handler)
      → s.crashed ≡ false
      → s.handlers ≡ before ++ (conn, phase) ∷ behind
      → select_phase pick phase s.listener ≡ panics
      → Step codec s (record s { crashed = true })
  -- or finds the end of its connection, or an error.
  hang_up :
      (now : Time) (from : String) (e : Option String) (conn : ℕ) (before behind : List Handler)
      → s.crashed ≡ false
      → s.handlers ≡ before ++ (conn, reading) ∷ behind
      → Step codec s (record s {
        listener = close_connection conn (end_scan now from e s.listener);
        handlers = before ++ behind;
      })
  -- Somebody receives a message, or an error.
  take :
      (msg : TelemetryMessage) (rest : List TelemetryMessage)
      → s.crashed ≡ false
      → s.listener.messages.buffer ≡ msg ∷ rest
      → Step codec s (record s {
        listener = record (s.listener) {
          messages = record (s.listener.messages) { buffer = rest };
        };
        taken = msg ∷ s.taken;
      })
  take_error :
      (e : TcpError) (rest : List TcpError)
      → s.crashed ≡ false
      → s.listener.errors.buffer ≡ e ∷ rest
      → Step codec s (record s {
        listener = record (s.listener) { errors = record (s.listener.errors) { buffer = rest } };
      })
  -- The steps of `Stop`: it marks and signals, closes the socket and the connections, waits, and
  -- closes the channels; it panics at a channel that is closed already.
  mark :
      s.crashed ≡ false
      → s.stopping ≡ untouched
      → s.listener.is_running ≡ true
      → Step codec s (record s { listener = stop_mark s.listener; stopping = marked })
  signal :
      (l : TcpListener)
      → s.crashed ≡ false
      → s.stopping ≡ marked
      → stop_signal s.listener ≡ returns l
      → Step codec s (record s { listener = l; stopping = signalled })
  signal_crash :
      s.crashed ≡ false
      → s.stopping ≡ marked
      → stop_signal s.listener ≡ panics
      → Step codec s (record s { crashed = true })
  deafen :
      s.crashed ≡ false
      → s.stopping ≡ signalled
      → Step codec s (record s { socket_open = false; stopping = deaf })
  sweep :
      s.crashed ≡ false
      → s.stopping ≡ deaf
      → Step codec s (record s { closed = s.listener.connections; stopping = swept })
  finish :
      (l : TcpListener)
      → s.crashed ≡ false
      → s.stopping ≡ swept
      → s.accepting ≡ ended
      → s.handlers ≡ []
      → close_channels s.listener ≡ returns l
      → Step codec s (record s { listener = l; stopping = done })
  finish_crash :
      s.crashed ≡ false
      → s.stopping ≡ swept
      → s.accepting ≡ ended
      → s.handlers ≡ []
      → close_channels s.listener ≡ panics
      → Step codec s (record s { crashed = true })

pub data Reach (codec : Codec) (s : System) : System → Type 0 where
  here : Reach codec s s
  next : {t u : System} → Reach codec s t → Step codec t u → Reach codec s u
