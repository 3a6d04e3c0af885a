-- ===== src/Ingestion/Datagrams/Selects.antt =====
-- What a read and a select of the receive loop do with the listener.
use sentinelstream.Prelude.{
  ℕ, ◌+◌, ◌%◌, ◌<◌, ◌≡◌, refl, ap, Bool, true, false, not, ◌&&◌, ◌||◌, then_do, send-panics, ◌==◌,
  none, some, Option, List, [], ◌∷◌, ◌++◌, String, Result, ok, err, length, u64_mod, arith, Outcome,
  returns, panics, blocks, Channel, send, has_room, if◌then◌else◌,
}
use sentinelstream.Protocol.Types.{TelemetryMessage}
use sentinelstream.Protocol.Parser.{Codec, parse_telemetry_message, ParseError}
use sentinelstream.Ingestion.Udp.{UdpListener, ReceiveError, Readings, offer}
use sentinelstream.Ingestion.Datagrams.{
  Phase, sending, reporting, Place, checking, reading, selecting, ended, count_parsed,
  read_datagram, select_phase, settle, held_by,
}

-- How many messages the loop holds at its select.
abbrev pub held : Place → ℕ
held checking = 0
held reading = 0
held (selecting phase) = held_by phase
held ended = 0

-- A listener with the same channels.
pub record SameChannels (l l' : UdpListener) : Type 0 where
  pub messages : l'.messages ≡ l.messages
  pub errors : l'.errors ≡ l.errors
  pub stop_closed : l'.stop_closed ≡ l.stop_closed

abbrev pub Keeps : UdpListener → UdpListener × Place → Type 0
Keeps l (l', place) =
    SameChannels l l'
    × (l'.messages_received % u64_mod ≡ (l.messages_received + held place) % u64_mod)

Keeps-if :
    (l : UdpListener) (b : Bool) (x y : UdpListener × Place)
    → Keeps l x
    → Keeps l y
    → Keeps l (if b then x else y)
Keeps-if l true x y h k = h
Keeps-if l false x y h k = k

same : (l : UdpListener) → SameChannels l l
same l = record { messages = refl; errors = refl; stop_closed = refl }

count_parsed-Keeps :
    (at : Readings) (from : String) (r : Result ParseError TelemetryMessage) (l : UdpListener)
    → Keeps l (count_parsed at.noted from r l)
unfolding count_parsed
count_parsed-Keeps at from (err e) l =
    (record { messages = refl; errors = refl; stop_closed = refl }, omega arith)
count_parsed-Keeps at from (ok msg) l =
    (record { messages = refl; errors = refl; stop_closed = refl }, omega arith)

pub read_datagram-Keeps :
    (codec : Codec) (at : Readings) (from : String) (content : Result String (List ℕ))
    (l : UdpListener)
    → Keeps l (read_datagram codec at from content l)
unfolding read_datagram
read_datagram-Keeps codec at from (err e) l =
    Keeps-if l (not l.is_running) _ _ (same l, omega arith)
      (record { messages = refl; errors = refl; stop_closed = refl }, omega arith)
read_datagram-Keeps codec at from (ok bytes) l =
    Keeps-if l (length bytes == 0) _ _ (same l, omega arith)
      (count_parsed-Keeps at from (parse_telemetry_message codec at.parsed bytes) l)

-- What an offer does with its channel.
abbrev Offered : {A : Type 0} → A → Channel A → Outcome (Option (Channel A)) → Type 0
Offered x ch (returns (some ch')) =
    (ch' ≡ record ch { buffer = ch.buffer ++ x ∷ [] }) × (length ch.buffer < ch.capacity)
Offered x ch (returns none) = Unit
Offered x ch panics = ch.closed ≡ true
Offered x ch blocks = Unit

Offered-if :
    {A : Type 0} (x : A) (ch : Channel A) (b : Bool) (o o' : Outcome (Option (Channel A)))
    → Offered x ch o
    → Offered x ch o'
    → Offered x ch (if b then o else o')
Offered-if x ch true o o' h k = h
Offered-if x ch false o o' h k = k

send-Offered :
    {A : Type 0} (x : A) (ch : Channel A) (o : Outcome (Channel A))
    → send x ch ≡ o
    → Offered x ch (then_do o (λ ch'. returns (some ch')))
unfolding send
send-Offered x ch (returns ch') h = ground (arith, h)
send-Offered x ch panics h = send-panics x ch h
send-Offered x ch blocks h = tt

offer-Offered :
    {A : Type 0} (pick : Bool) (x : A) (ch : Channel A) (stopped : Bool)
    → Offered x ch (offer pick x ch stopped)
unfolding send
offer-Offered pick x ch stopped =
    Offered-if x ch ((ch.closed || has_room ch) && (not stopped || pick)) _ _
      (send-Offered x ch (send x ch) refl) (Offered-if x ch stopped (returns none) blocks tt tt)

-- What a select does with the listener.
abbrev pub Selected : Phase → UdpListener → Outcome (UdpListener × Place) → Type 0
Selected (sending msg) l (returns (l', checking)) =
    (l' ≡ record l { messages = record (l.messages) { buffer = l.messages.buffer ++ msg ∷ [] } })
    × (length l.messages.buffer < l.messages.capacity)
Selected (reporting e) l (returns (l', checking)) =
    (l' ≡ record l { errors = record (l.errors) { buffer = l.errors.buffer ++ e ∷ [] } })
    × (length l.errors.buffer < l.errors.capacity)
Selected phase l (returns (l', ended)) = l' ≡ l
Selected phase l (returns (l', reading)) = ⊥
Selected phase l (returns (l', selecting x)) = ⊥
Selected (sending msg) l panics = l.messages.closed ≡ true
Selected (reporting e) l panics = l.errors.closed ≡ true
Selected phase l blocks = Unit

sending-Selected :
    (msg : TelemetryMessage) (l : UdpListener) (o : Outcome (Option (Channel TelemetryMessage)))
    → Offered msg l.messages o
    → Selected (sending msg) l (settle l (λ ch. record l { messages = ch }) o)
sending-Selected msg l (returns (some ch)) (e, room) = (ap (λ c. record l { messages = c }) e, room)
sending-Selected msg l (returns none) h = refl
sending-Selected msg l panics h = h
sending-Selected msg l blocks h = tt

reporting-Selected :
    (x : ReceiveError) (l : UdpListener) (o : Outcome (Option (Channel ReceiveError)))
    → Offered x l.errors o
    → Selected (reporting x) l (settle l (λ ch. record l { errors = ch }) o)
reporting-Selected x l (returns (some ch)) (e, room) = (ap (λ c. record l { errors = c }) e, room)
reporting-Selected x l (returns none) h = refl
reporting-Selected x l panics h = h
reporting-Selected x l blocks h = tt

pub select_phase-Selected :
    (pick : Bool) (phase : Phase) (l : UdpListener) → Selected phase l (select_phase pick phase l)
unfolding select_phase
select_phase-Selected pick (sending msg) l =
    sending-Selected msg l _ (offer-Offered pick msg l.messages l.stop_closed)
select_phase-Selected pick (reporting e) l =
    reporting-Selected e l _ (offer-Offered pick e l.errors l.stop_closed)
