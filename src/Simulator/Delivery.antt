-- ===== src/Simulator/Delivery.antt =====
-- What the senders send is what the listeners of internal/ingestion read.
use mathlib.Core.List.{append_assoc, append-nil}
use sentinelstream.Prelude.{
  ℕ, ◌+◌, ◌%◌, ◌<◌, ◌≡◌, refl, sym, ap, ◌∙◌, false, none, List, [], ◌∷◌, ◌++◌, map, String, ok,
  length, All, arith, add64, u64_mod,
}
use sentinelstream.Clock.{Time}
use sentinelstream.Protocol.Types.{TelemetryMessage}
use sentinelstream.Protocol.Parser.{Codec, parse_telemetry_message}
use sentinelstream.Protocol.Parsing.{parse_telemetry_message_exact}
use sentinelstream.Protocol.Validation.Ranges.{IsWellFormed}
use sentinelstream.Replay.Scanner.{IsLine, scan, unlines, scan-unlines}
use sentinelstream.Ingestion.Tcp.{
  TcpListener, Phase, sending, Readings, max_tcp_line_size, handle_line, note_parsed,
}
use sentinelstream.Simulator.Random.{Marshaller}
use sentinelstream.Simulator.Sender.{tcp_send}

-- The message is marshalled to a line that the scanner takes, read back as it, and well formed when
-- the server gets it.
pub record IsDeliverable (codec : Codec) (marshal : Marshaller) (now : Time)
    (msg : TelemetryMessage) : Type 0 where
  pub bytes : List ℕ
  pub marshalled : marshal.telemetry_message msg ≡ ok bytes
  pub line : IsLine max_tcp_line_size bytes
  pub not_empty : 0 < length bytes
  pub read_back : codec.telemetry_message bytes ≡ ok msg
  pub well_formed : IsWellFormed now msg

-- The bytes of a connection behind the messages, if no write fails.
unfoldable pub tcp_send_all : Marshaller → List TelemetryMessage → List ℕ → List ℕ
tcp_send_all marshal [] stream = stream
tcp_send_all marshal (msg ∷ msgs) stream =
    tcp_send_all marshal msgs (tcp_send marshal none msg stream).0

-- A handler with the lines of its connection, each select sending: the phases that it comes to.
unfoldable pub handle_lines :
    Codec → Readings → String → List (List ℕ) → TcpListener → List Phase × TcpListener
handle_lines codec at from [] l = ([], l)
handle_lines codec at from (line ∷ lines) l =
    let (l', phase) = handle_line codec at from line l in
    let (phases, l'') = handle_lines codec at from lines l' in (phase ∷ phases, l'')

-- A listener whose counter of messages stands at `n`.
abbrev pub received : ℕ → TcpListener → TcpListener
received n l = record l { messages_received = n }

deliverable-parsed :
    (codec : Codec) (marshal : Marshaller) (now : Time) (msg : TelemetryMessage)
    → (v : IsDeliverable codec marshal now msg) → parse_telemetry_message codec now v.bytes ≡ ok msg
deliverable-parsed codec marshal now msg v =
    (parse_telemetry_message_exact codec now v.bytes msg (record { field = ""; reason = "" })).0.1
      (v.read_back, v.well_formed)

module _ (codec : Codec) (marshal : Marshaller) (at : Readings) (from : String) where
  abbrev Deliverable : TelemetryMessage → Type 0
  Deliverable msg = IsDeliverable codec marshal at.parsed msg

  handle_line-Deliverable :
      (msg : TelemetryMessage) (l : TcpListener) (v : Deliverable msg)
      → handle_line codec at from v.bytes l
        ≡ (received (add64 l.messages_received 1) l, sending msg)
  unfolding handle_line note_parsed
  handle_line-Deliverable msg l v = ground (arith, deliverable-parsed codec marshal at.parsed msg v)

  -- The texts of the messages.
  abbrev texts : (msgs : List TelemetryMessage) → All Deliverable msgs → List (List ℕ)
  texts [] h = []
  texts (msg ∷ msgs) (v, h) = v.bytes ∷ texts msgs h

  texts-IsLine :
      (msgs : List TelemetryMessage) (h : All Deliverable msgs)
      → All (IsLine max_tcp_line_size) (texts msgs h)
  texts-IsLine [] h = tt
  texts-IsLine (msg ∷ msgs) (v, h) = (v.line, texts-IsLine msgs h)

  tcp_send-line :
      (msg : TelemetryMessage) (stream : List ℕ) (v : Deliverable msg)
      → (tcp_send marshal none msg stream).0 ≡ stream ++ (v.bytes ++ 10 ∷ [])
  unfolding tcp_send
  tcp_send-line msg stream v = rw (tcp_send, v.marshalled) refl

  tcp_send_all-texts :
      (msgs : List TelemetryMessage) (stream : List ℕ) (h : All Deliverable msgs)
      → tcp_send_all marshal msgs stream ≡ stream ++ unlines (texts msgs h)
  unfolding tcp_send_all unlines
  tcp_send_all-texts [] stream h = sym (append-nil stream)
  tcp_send_all-texts (msg ∷ msgs) stream (v, h) =
      ap (tcp_send_all marshal msgs) (tcp_send-line msg stream v)
      ∙ tcp_send_all-texts msgs (stream ++ (v.bytes ++ 10 ∷ [])) h
      ∙ append_assoc stream (v.bytes ++ 10 ∷ []) (unlines (texts msgs h))
      ∙ ap (λ b. stream ++ b) (append_assoc v.bytes (10 ∷ []) (unlines (texts msgs h)))

  handle_lines-texts :
      (msgs : List TelemetryMessage) (l : TcpListener) (h : All Deliverable msgs)
      → (n : ℕ) × (handle_lines codec at from (texts msgs h) l ≡ (map sending msgs, received n l))
        × (n % u64_mod ≡ (l.messages_received + length msgs) % u64_mod)
  unfolding handle_lines
  handle_lines-texts [] l h = (l.messages_received, refl, omega arith)
  handle_lines-texts (msg ∷ msgs) l (v, h) =
      let next = received (add64 l.messages_received 1) l in
      let (n, e, count) = handle_lines-texts msgs next h in
      (
        n,
        ap
              (λ (q : TcpListener × Phase).
                let (phases, l'') = handle_lines codec at from (texts msgs h) q.0 in
                (q.1 ∷ phases, l''))
              (handle_line-Deliverable msg l v)
            ∙ ap (λ (q : List Phase × TcpListener). (sending msg ∷ q.0, q.1)) e,
        omega arith,
      )

-- What a TCP sender sends over a connection without a failing write, the listener's handler reads
-- back in order: the scanner does not stop, and for the line of each message the handler comes to the
-- select that sends this message on. Its counter grows by their number, modulo 2^64, and nothing else
-- of the listener changes. Each message is marshalled to a line that is not empty, shorter than a MiB,
-- and read back as the message, which is well formed at the time.
pub delivered :
    (codec : Codec) (marshal : Marshaller) (at : Readings) (from : String)
    (msgs : List TelemetryMessage) (l : TcpListener)
    → All (IsDeliverable codec marshal at.parsed) msgs
    → let (lines, stopped) = scan max_tcp_line_size (tcp_send_all marshal msgs []) in
      (stopped ≡ false)
      × ((n : ℕ) × (handle_lines codec at from lines l ≡ (map sending msgs, received n l))
          × (n % u64_mod ≡ (l.messages_received + length msgs) % u64_mod))
delivered codec marshal at from msgs l h =
    let lines = texts codec marshal at from msgs h in
    rw
      (
        tcp_send_all-texts codec marshal at from msgs [] h,
        scan-unlines max_tcp_line_size lines (texts-IsLine codec marshal at from msgs h),
      )
      (refl, handle_lines-texts codec marshal at from msgs l h)
