-- ===== src/Ingestion/Reading.antt =====
-- What the reads of the receive loop mean, and the rounds of the loop on a sequence of reads.
use sentinelstream.Prelude.{
  ℕ, ◌+◌, ◌%◌, ◌==◌, ◌≡◌, true, false, List, [], ◌∷◌, ◌++◌, String, Result, ok, err, if◌then◌else◌,
  length, u64_mod,
}
use sentinelstream.Clock.{Time}
use sentinelstream.Protocol.Types.{TelemetryMessage}
use sentinelstream.Protocol.Parser.{Codec, ParseError, parse_telemetry_message}
use sentinelstream.Ingestion.Udp.{
  UdpListener, ReceiveError, read_failed, rejected, Received, Readings, Round, goes_on, leaves,
  waits, crashes, receive_round,
}

abbrev pub Item : Type 0
Item = Readings × Received

-- What a read means.
pub data Fate : Type 0 where
  accepted : TelemetryMessage → Fate
  refused : String → ParseError → Fate
  failed : String → String → Fate
  ignored : Fate

abbrev pub fate_of_parse : String → Result ParseError TelemetryMessage → Fate
fate_of_parse from (ok msg) = accepted msg
fate_of_parse from (err e) = refused from e

abbrev pub fate_of_content : Codec → Time → String → Result String (List ℕ) → Fate
fate_of_content codec now from (err e) = failed from e
fate_of_content codec now from (ok bytes) =
    if length bytes == 0
    then ignored
    else fate_of_parse from (parse_telemetry_message codec now bytes)

abbrev pub fate : Codec → Item → Fate
fate codec (at, got) = fate_of_content codec at.parsed got.remote_addr got.content

abbrev pub messages_of : Fate → List TelemetryMessage
messages_of (accepted msg) = msg ∷ []
messages_of (refused from e) = []
messages_of (failed from e) = []
messages_of ignored = []

abbrev pub errors_of : Fate → List ReceiveError
errors_of (accepted msg) = []
errors_of (refused from e) = rejected from e ∷ []
errors_of (failed from e) = read_failed e ∷ []
errors_of ignored = []

abbrev pub refusals_of : Fate → ℕ
refusals_of (accepted msg) = 0
refusals_of (refused from e) = 1
refusals_of (failed from e) = 0
refusals_of ignored = 0

abbrev pub then_round : Round → (UdpListener → Round) → Round
then_round (goes_on l) next = next l
then_round (leaves l) next = leaves l
then_round (waits l) next = waits l
then_round crashes next = crashes

module _ (codec : Codec) where
  unfoldable pub all_messages : List Item → List TelemetryMessage
  all_messages [] = []
  all_messages (x ∷ xs) = messages_of (fate codec x) ++ all_messages xs

  unfoldable pub all_errors : List Item → List ReceiveError
  all_errors [] = []
  all_errors (x ∷ xs) = errors_of (fate codec x) ++ all_errors xs

  unfoldable pub refusals : List Item → ℕ
  refusals [] = 0
  refusals (x ∷ xs) = refusals_of (fate codec x) + refusals xs

  -- The rounds of the loop, until one does not go on. No case of a select is ready but the send.
  unfoldable pub receive_all : List Item → UdpListener → Round
  receive_all [] l = goes_on l
  receive_all ((at, got) ∷ xs) l =
      then_round (receive_round codec true at got l) (λ l'. receive_all xs l')

-- A listener that runs.
pub record IsOpen (l : UdpListener) : Type 0 where
  pub running : l.is_running ≡ true
  pub unstopped : l.stop_closed ≡ false
  pub open_messages : l.messages.closed ≡ false
  pub open_errors : l.errors.closed ≡ false

-- The listener `l'` has received what is listed since `l`.
pub record Has (msgs : List TelemetryMessage) (errs : List ReceiveError) (n : ℕ)
    (l l' : UdpListener) : Type 0 where
  pub messages : l'.messages ≡ record (l.messages) { buffer = l.messages.buffer ++ msgs }
  pub errors : l'.errors ≡ record (l.errors) { buffer = l.errors.buffer ++ errs }
  pub received : l'.messages_received % u64_mod ≡ (l.messages_received + length msgs) % u64_mod
  pub rejections : l'.messages_rejected % u64_mod ≡ (l.messages_rejected + n) % u64_mod
  pub still_open : IsOpen l'
