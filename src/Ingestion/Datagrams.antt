-- ===== src/Ingestion/Datagrams.antt =====
-- The UDP listener at work: the receive loop, one `Stop`, and whoever receives from its channels, in any
-- order of their steps. A round of the loop is cut where it waits.
pub mod Rounds
pub mod Selects
pub mod States
pub mod Invariant
use sentinelstream.Prelude.{
  ℕ, ◌+◌, ◌==◌, ◌≡◌, Bool, true, false, not, none, some, List, [], ◌∷◌, String, Option, Result, ok,
  err, if◌then◌else◌, length, add64, Outcome, returns, panics, blocks, Channel,
}
use sentinelstream.Clock.{Time}
use sentinelstream.Protocol.Types.{TelemetryMessage}
use sentinelstream.Protocol.Parser.{Codec, ParseError, parse_telemetry_message}
use sentinelstream.Ingestion.Udp.{
  UdpListener, ReceiveError, read_failed, rejected, Received, Readings, offer, stop_receiving,
  close_channels,
}

-- The two kinds of select that the loop comes to.
pub data Phase : Type 0 where
  sending : TelemetryMessage → Phase
  reporting : ReceiveError → Phase

-- Where the loop stands: at the top of a round, at `ReadFromUDP`, at a select, or at its end.
pub data Place : Type 0 where
  checking reading : Place
  selecting : Phase → Place
  ended : Place

-- The select on `stopChan` with a default case.
unfoldable pub check_stop : UdpListener → Place
check_stop l = if l.stop_closed then ended else reading

abbrev pub note : Time → String → ReceiveError → UdpListener → UdpListener
note now from e l = record l { last_error_time = now; last_error_message = some (from, e) }

-- What the loop does with a message, or with the parser's error, up to its select.
unfoldable pub count_parsed :
    Time → String → Result ParseError TelemetryMessage → UdpListener → UdpListener × Place
count_parsed now from (err e) l = (
  note now from (rejected from e) (record l { messages_rejected = add64 l.messages_rejected 1 }),
  selecting (reporting (rejected from e)),
)
count_parsed now from (ok msg) l =
    (record l { messages_received = add64 l.messages_received 1 }, selecting (sending msg))

-- From `ReadFromUDP` to a select, or to the next round.
unfoldable pub read_datagram :
    Codec → Readings → String → Result String (List ℕ) → UdpListener → UdpListener × Place
unfolding count_parsed
read_datagram codec at from (err e) l =
    if not l.is_running
    then (l, ended)
    else (note at.noted from (read_failed e) l, selecting (reporting (read_failed e)))
read_datagram codec at from (ok bytes) l =
    if length bytes == 0
    then (l, checking)
    else count_parsed at.noted from (parse_telemetry_message codec at.parsed bytes) l

abbrev pub settle {ℓ} :
    {A : Type ℓ}
    → UdpListener
    → (Channel A → UdpListener)
    → Outcome (Option (Channel A))
    → Outcome (UdpListener × Place)
settle l next (returns (some ch)) = returns (next ch, checking)
settle l next (returns none) = returns (l, ended)
settle l next panics = panics
settle l next blocks = blocks

-- A select of the loop, and where it leads.
unfoldable pub select_phase : Bool → Phase → UdpListener → Outcome (UdpListener × Place)
select_phase pick (sending msg) l =
    settle l (λ ch. record l { messages = ch }) (offer pick msg l.messages l.stop_closed)
select_phase pick (reporting e) l =
    settle l (λ ch. record l { errors = ch }) (offer pick e l.errors l.stop_closed)

-- How far `Stop` is.
pub data Stopping : Type 0 where
  untouched signalled done : Stopping

-- `sent`, `taken` and `abandoned` are no part of the program: they record the messages that went into
-- the channel and out of it, the newest first, and how many were given up because of `Stop`.
pub record System : Type 0 where
  pub listener : UdpListener
  pub place : Place
  pub stopping : Stopping
  pub crashed : Bool
  pub sent : List TelemetryMessage
  pub taken : List TelemetryMessage
  pub abandoned : ℕ

abbrev pub sent_by : Phase → List TelemetryMessage → List TelemetryMessage
sent_by (sending msg) sent = msg ∷ sent
sent_by (reporting e) sent = sent

abbrev pub held_by : Phase → ℕ
held_by (sending msg) = 1
held_by (reporting e) = 0

pub data Step (codec : Codec) (s : System) : System → Type 0 where
  check :
      s.crashed ≡ false
      → s.place ≡ checking
      → Step codec s (record s { place = check_stop s.listener })
  -- The read returns; with the socket closed it returns an error, as it may at any time.
  read :
      (at : Readings) (from : String) (content : Result String (List ℕ)) (l : UdpListener)
      (place : Place)
      → s.crashed ≡ false
      → s.place ≡ reading
      → read_datagram codec at from content s.listener ≡ (l, place)
      → Step codec s (record s { listener = l; place = place })
  -- The select sends, or finds the listener stopped, or panics.
  deliver :
      (pick : Bool) (phase : Phase) (l : UdpListener)
      → s.crashed ≡ false
      → s.place ≡ selecting phase
      → select_phase pick phase s.listener ≡ returns (l, checking)
      → Step codec s (record s { listener = l; place = checking; sent = sent_by phase s.sent })
  leave :
      (pick : Bool) (phase : Phase) (l : UdpListener)
      → s.crashed ≡ false
      → s.place ≡ selecting phase
      → select_phase pick phase s.listener ≡ returns (l, ended)
      → Step codec s
          (record s { listener = l; place = ended; abandoned = s.abandoned + held_by phase })
  crash :
      (pick : Bool) (phase : Phase)
      → s.crashed ≡ false
      → s.place ≡ selecting phase
      → select_phase pick phase s.listener ≡ panics
      → Step codec s (record s { crashed = true })
  -- Somebody receives a message, or an error.
  take :
      (msg : TelemetryMessage) (rest : List TelemetryMessage)
      → s.crashed ≡ false
      → s.listener.messages.buffer ≡ msg ∷ rest
      → Step codec s (record s {
        listener = record (s.listener) {
          messages = record (s.listener.messages) { buffer = rest };
        };
        taken = msg ∷ s.taken;
      })
  take_error :
      (e : ReceiveError) (rest : List ReceiveError)
      → s.crashed ≡ false
      → s.listener.errors.buffer ≡ e ∷ rest
      → Step codec s (record s {
        listener = record (s.listener) { errors = record (s.listener.errors) { buffer = rest } };
      })
  -- `Stop` signals and closes the socket, waits for the loop, and closes the channels.
  signal :
      (l : UdpListener)
      → s.crashed ≡ false
      → s.stopping ≡ untouched
      → s.listener.is_running ≡ true
      → stop_receiving s.listener ≡ returns l
      → Step codec s (record s { listener = l; stopping = signalled })
  signal_crash :
      s.crashed ≡ false
      → s.stopping ≡ untouched
      → s.listener.is_running ≡ true
      → stop_receiving s.listener ≡ panics
      → Step codec s (record s { crashed = true })
  finish :
      (l : UdpListener)
      → s.crashed ≡ false
      → s.stopping ≡ signalled
      → s.place ≡ ended
      → close_channels s.listener ≡ returns l
      → Step codec s (record s { listener = l; stopping = done })
  finish_crash :
      s.crashed ≡ false
      → s.stopping ≡ signalled
      → s.place ≡ ended
      → close_channels s.listener ≡ panics
      → Step codec s (record s { crashed = true })

pub data Reach (codec : Codec) (s : System) : System → Type 0 where
  here : Reach codec s s
  next : {t u : System} → Reach codec s t → Step codec t u → Reach codec s u
