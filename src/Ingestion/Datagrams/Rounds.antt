-- ===== src/Ingestion/Datagrams/Rounds.antt =====
-- The stretches of a round make up the round.
use sentinelstream.Prelude.{
  ℕ, ◌==◌, ◌≡◌, refl, Bool, true, false, not, Option, none, some, String, List, Result, ok, err,
  length, Outcome, returns, panics, blocks, Channel, if◌then◌else◌,
}
use sentinelstream.Protocol.Types.{TelemetryMessage}
use sentinelstream.Protocol.Parser.{Codec, ParseError, parse_telemetry_message}
use sentinelstream.Ingestion.Udp.{
  UdpListener, Received, Readings, Round, goes_on, leaves, waits, crashes, round_of, receive_round,
  handle_content, handle_parsed, report_error,
}
use sentinelstream.Ingestion.Datagrams.{
  Place, checking, reading, selecting, ended, check_stop, count_parsed, read_datagram, settle,
  select_phase,
}

-- A round from what its last stretch returns, or where it waits.
abbrev pub round_from : UdpListener → Outcome (UdpListener × Place) → Round
round_from l (returns (l', ended)) = leaves l'
round_from l (returns (l', checking)) = goes_on l'
round_from l (returns (l', reading)) = goes_on l'
round_from l (returns (l', selecting phase)) = waits l'
round_from l panics = crashes
round_from l blocks = waits l

-- The select, if the loop came to one.
abbrev pub finish_round : Bool → UdpListener × Place → Round
finish_round pick (l, checking) = goes_on l
finish_round pick (l, reading) = goes_on l
finish_round pick (l, selecting phase) = round_from l (select_phase pick phase l)
finish_round pick (l, ended) = leaves l

abbrev pub continue_round : Codec → Bool → Readings → Received → UdpListener → Place → Round
continue_round codec pick at got l ended = leaves l
continue_round codec pick at got l checking = goes_on l
continue_round codec pick at got l (selecting phase) = waits l
continue_round codec pick at got l reading =
    finish_round pick (read_datagram codec at got.remote_addr got.content l)

settle-round_of {ℓ} :
    {A : Type ℓ} (l : UdpListener) (next : Channel A → UdpListener)
    (o : Outcome (Option (Channel A)))
    → round_of l next o ≡ round_from l (settle l next o)
settle-round_of l next (returns (some ch)) = refl
settle-round_of l next (returns none) = refl
settle-round_of l next panics = refl
settle-round_of l next blocks = refl

parsed_round :
    (pick : Bool) (at : Readings) (from : String) (r : Result ParseError TelemetryMessage)
    (l : UdpListener)
    → handle_parsed pick at.noted from r l ≡ finish_round pick (count_parsed at.noted from r l)
unfolding handle_parsed report_error count_parsed select_phase
parsed_round pick at from (err e) l = settle-round_of _ _ _
parsed_round pick at from (ok msg) l = settle-round_of _ _ _

split_if :
    (pick b : Bool) {x y : Round} (u v : UdpListener × Place)
    → x ≡ finish_round pick u
    → y ≡ finish_round pick v
    → (if b then x else y) ≡ finish_round pick (if b then u else v)
split_if pick true u v h k = h
split_if pick false u v h k = k

content_round :
    (codec : Codec) (pick : Bool) (at : Readings) (from : String) (content : Result String (List ℕ))
    (l : UdpListener)
    → handle_content codec pick at from content l
      ≡ finish_round pick (read_datagram codec at from content l)
unfolding handle_content read_datagram
content_round codec pick at from (err e) l =
    split_if pick (not l.is_running) _ _ refl
      (unfold report_error select_phase in settle-round_of _ _ _)
content_round codec pick at from (ok bytes) l =
    split_if pick (length bytes == 0) _ _ refl
      (parsed_round pick at from (parse_telemetry_message codec at.parsed bytes) l)

split_check :
    (codec : Codec) (pick : Bool) (at : Readings) (got : Received) (l : UdpListener) (b : Bool)
    {x : Round}
    → x ≡ continue_round codec pick at got l reading
    → (if b then leaves l else x)
      ≡ continue_round codec pick at got l (if b then ended else reading)
split_check codec pick at got l true h = refl
split_check codec pick at got l false h = h

-- A round of the receive loop is its three stretches one after another: the test of the stop channel,
-- the read with what follows it up to a select, and the select.
pub receive_round-stretches :
    (codec : Codec) (pick : Bool) (at : Readings) (got : Received) (l : UdpListener)
    → receive_round codec pick at got l ≡ continue_round codec pick at got l (check_stop l)
unfolding receive_round check_stop
receive_round-stretches codec pick at got l =
    split_check codec pick at got l l.stop_closed
      (content_round codec pick at got.remote_addr got.content l)
