-- ===== src/Replay/Tests.antt =====
-- A file with two messages, and its replay.
use sentinelstream.Prelude.{
  ℕ, ◌≡◌, refl, Option, none, some, false, List, [], ◌∷◌, String, Result, ok, pos, arith,
}
use sentinelstream.Protocol.Types.{TelemetryMessage}
use sentinelstream.Replay.Scanner.{scan, scan_from, drop_cr}
use sentinelstream.Replay.Files.{replay, handler_failed, max_line_size}
use sentinelstream.Replay.Roundtrip.{IsRecordable, record_all, hand_on, replay-record_all}

abbrev message : TelemetryMessage
message = record {
  sensor_id = "gps-1";
  sensor_type = "gps";
  sequence = 7;
  timestamp = pos 400;
  payload = 123 ∷ 125 ∷ [];
}

abbrev marshal : TelemetryMessage → Result String (List ℕ)
marshal msg = ok (123 ∷ 125 ∷ [])

abbrev unmarshal : List ℕ → Result String TelemetryMessage
unmarshal bytes = ok message

-- The handler notes the messages, the newest first, and fails once there is one.
abbrev note : TelemetryMessage → List TelemetryMessage → List TelemetryMessage × Option String
note msg [] = (msg ∷ [], none)
note msg (m ∷ msgs) = (m ∷ msgs, some "processor stopping")

abbrev two : List TelemetryMessage
two = message ∷ message ∷ []

scan_test :
    scan max_line_size (123 ∷ 13 ∷ 10 ∷ 10 ∷ 125 ∷ []) ≡ ((123 ∷ []) ∷ [] ∷ (125 ∷ []) ∷ [], false)
unfolding scan scan_from drop_cr
scan_test = refl

message-IsRecordable : IsRecordable marshal unmarshal message
unfolding drop_cr
message-IsRecordable = record {
  bytes = 123 ∷ 125 ∷ [];
  marshalled = refl;
  line = record {
    no_newline = (ground arith, (ground arith, tt));
    no_return = refl;
    short = omega arith;
  };
  not_empty = omega arith;
  read_back = refl;
}

replay-record_all_example :
    replay unmarshal (λ i. none) note (ok (record_all marshal two [])) []
    ≡ hand_on (λ i. none) note 0 0 two []
replay-record_all_example =
    replay-record_all marshal unmarshal (λ i. none) note two []
      (message-IsRecordable, (message-IsRecordable, tt))

hand_on_test :
    hand_on (λ i. none) note 0 0 two []
    ≡ (message ∷ [], 1, some (handler_failed 2 "processor stopping"))
unfolding hand_on
hand_on_test = refl
