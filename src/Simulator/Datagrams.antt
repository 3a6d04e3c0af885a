-- ===== src/Simulator/Datagrams.antt =====
-- What the UDP sender sends is what the UDP listener puts into its channel.
use mathlib.Core.List.{append_assoc, append-nil}
use sentinelstream.Prelude.{
  ℕ, ◌+◌, ◌≤◌, ◌<◌, ◌==◌, ◌≡◌, refl, sym, ap, ◌∙◌, false, none, List, [], ◌∷◌, ◌++◌, String, ok,
  length, All, arith,
}
use mathlib.Core.Path.{ap₂}
use sentinelstream.Clock.{Time}
use sentinelstream.Protocol.Types.{TelemetryMessage}
use sentinelstream.Protocol.Parser.{Codec}
use sentinelstream.Protocol.Parsing.{parse_telemetry_message_exact}
use sentinelstream.Protocol.Validation.Ranges.{IsWellFormed}
use sentinelstream.Ingestion.Udp.{UdpListener, Readings, goes_on}
use sentinelstream.Ingestion.Reading.{
  Item, accepted, fate, fate_of_parse, messages_of, errors_of, refusals_of, all_messages,
  all_errors, refusals, receive_all, IsOpen, Has,
}
use sentinelstream.Ingestion.Receiving.{receive_all-Has}
use sentinelstream.Simulator.Random.{Marshaller}
use sentinelstream.Simulator.Sender.{udp_send}

-- The message is marshalled to a datagram that is read back as it, and well formed when the server gets
-- it.
pub record IsPosted (codec : Codec) (marshal : Marshaller) (now : Time) (msg : TelemetryMessage)
    : Type 0 where
  pub bytes : List ℕ
  pub marshalled : marshal.telemetry_message msg ≡ ok bytes
  pub not_empty : 0 < length bytes
  pub fits : length bytes ≤ 65507
  pub read_back : codec.telemetry_message bytes ≡ ok msg
  pub well_formed : IsWellFormed now msg

-- The datagrams of the messages, if no write fails.
unfoldable pub udp_send_all : Marshaller → List TelemetryMessage → List (List ℕ) → List (List ℕ)
udp_send_all marshal [] datagrams = datagrams
udp_send_all marshal (msg ∷ msgs) datagrams =
    udp_send_all marshal msgs (udp_send marshal none msg datagrams).0

-- The reads of the listener if each datagram arrives, in order.
abbrev pub arrivals : Readings → String → List (List ℕ) → List Item
arrivals at from [] = []
arrivals at from (d ∷ datagrams) =
    (at, record { remote_addr = from; content = ok d }) ∷ arrivals at from datagrams

module _ (codec : Codec) (marshal : Marshaller) (at : Readings) (from : String) where
  abbrev Posted : TelemetryMessage → Type 0
  Posted msg = IsPosted codec marshal at.parsed msg

  abbrev texts : (msgs : List TelemetryMessage) → All Posted msgs → List (List ℕ)
  texts [] h = []
  texts (msg ∷ msgs) (v, h) = v.bytes ∷ texts msgs h

  udp_send-packet :
      (msg : TelemetryMessage) (datagrams : List (List ℕ)) (v : Posted msg)
      → (udp_send marshal none msg datagrams).0 ≡ datagrams ++ v.bytes ∷ []
  unfolding udp_send
  udp_send-packet msg datagrams v = rw (udp_send, v.marshalled) refl

  udp_send_all-texts :
      (msgs : List TelemetryMessage) (datagrams : List (List ℕ)) (h : All Posted msgs)
      → udp_send_all marshal msgs datagrams ≡ datagrams ++ texts msgs h
  unfolding udp_send_all
  udp_send_all-texts [] datagrams h = sym (append-nil datagrams)
  udp_send_all-texts (msg ∷ msgs) datagrams (v, h) =
      ap (udp_send_all marshal msgs) (udp_send-packet msg datagrams v)
      ∙ udp_send_all-texts msgs (datagrams ++ v.bytes ∷ []) h
      ∙ append_assoc datagrams (v.bytes ∷ []) (texts msgs h)

  fate-accepted :
      (msg : TelemetryMessage) (v : Posted msg)
      → fate codec (at, record { remote_addr = from; content = ok v.bytes }) ≡ accepted msg
  fate-accepted msg v =
      let parsed =
        (parse_telemetry_message_exact codec at.parsed v.bytes msg
            (record { field = ""; reason = "" })).0.1
          (v.read_back, v.well_formed) in
      let full : (length v.bytes == 0) ≡ false = ground (arith, v.not_empty) in
      rw full (ap (fate_of_parse from) parsed)

  fates_of_steps :
      (msgs : List TelemetryMessage) (h : All Posted msgs)
      → let items = arrivals at from (texts msgs h) in
        (all_messages codec items ≡ msgs)
        × (all_errors codec items ≡ [])
        × (refusals codec items ≡ 0)
  unfolding all_messages all_errors refusals
  fates_of_steps [] h = (refl, refl, refl)
  fates_of_steps (msg ∷ msgs) (v, h) =
      let (a, b, c) = fates_of_steps msgs h in
      let f = fate-accepted msg v in
      (
        ap₂ (λ x l. messages_of x ++ l) f a,
        ap₂ (λ x l. errors_of x ++ l) f b,
        ap₂ (λ x n. refusals_of x + n) f c,
      )

-- What a UDP sender sends without a failing write, and what arrives in order at a running listener with
-- room for it, is then in the listener's channel, in its order, behind what was there; the receive loop
-- goes on, has reported no error, and has counted the messages as received, modulo 2^64, and none as
-- rejected. Each message is marshalled to a datagram of 1 to 65507 bytes that is read back as the
-- message, which is well formed at the time.
pub posted :
    (codec : Codec) (marshal : Marshaller) (at : Readings) (from : String)
    (msgs : List TelemetryMessage) (l : UdpListener)
    → All (IsPosted codec marshal at.parsed) msgs
    → IsOpen l
    → length l.messages.buffer + length msgs ≤ l.messages.capacity
    → length l.errors.buffer ≤ l.errors.capacity
    → (l' : UdpListener) × (receive_all codec (arrivals at from (udp_send_all marshal msgs [])) l
        ≡ goes_on l')
      × Has msgs [] 0 l l'
posted codec marshal at from msgs l h v room room' =
    let (a, b, c) = fates_of_steps codec marshal at from msgs h in
    let items = arrivals at from (texts codec marshal at from msgs h) in
    let (l', e, has) = receive_all-Has codec items l v (rw a room) (rw b (omega arith)) in
    (l', rw (udp_send_all-texts codec marshal at from msgs [] h) e, rw a at (rw b at (rw c at has)))
