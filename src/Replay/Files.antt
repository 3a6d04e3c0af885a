-- ===== src/Replay/Files.antt =====
-- internal/replay/recorder.go and player.go. The file is its bytes; `json.Marshal` and
-- `json.Unmarshal`, the writes to the file and the readings of the context are arguments.
use sentinelstream.Prelude.{
  ℕ, ◌+◌, ◌==◌, Bool, true, false, Option, none, some, List, [], ◌∷◌, ◌++◌, String, Result, ok, err,
  if◌then◌else◌, length, take,
}
use sentinelstream.Protocol.Types.{TelemetryMessage}
use sentinelstream.Replay.Scanner.{scan}

-- The file, opened for writing at its end, and whether it is open still.
pub record EventRecorder : Type 0 where
  pub file : List ℕ
  pub is_open : Bool

-- "failed to open event file", with the path and the error.
pub data OpenError : Type 0 where
  cannot_open : String → String → OpenError

unfoldable pub new_event_recorder :
    (String → Result String (List ℕ)) → String → Result OpenError EventRecorder
new_event_recorder open_file path = elim (open_file path) [
  | err e ↦ err (cannot_open path e)
  | ok file ↦ ok (record { file = file; is_open = true })
]

-- `Close`
abbrev pub close_event_recorder : EventRecorder → EventRecorder
close_event_recorder r = record r { is_open = false }

pub data RecordError : Type 0 where
  not_marshalled : String → RecordError
  not_written : String → RecordError

-- `some (e, n)`: the write fails with the error `e` behind `n` bytes.
abbrev pub WriteFailure : Type 0
WriteFailure = Option (String × ℕ)

abbrev pub write : WriteFailure → List ℕ → List ℕ → List ℕ × Option RecordError
write none data_bytes file = (file ++ data_bytes, none)
write (some (e, n)) data_bytes file = (file ++ take n data_bytes, some (not_written e))

unfoldable pub record_event :
    (TelemetryMessage → Result String (List ℕ))
    → WriteFailure
    → TelemetryMessage
    → List ℕ
    → List ℕ × Option RecordError
record_event marshal failure msg file = elim (marshal msg) [
  | err e ↦ (file, some (not_marshalled e))
  | ok bytes ↦ write failure (bytes ++ 10 ∷ []) file
]

-- 1 << 20
abbrev pub max_line_size : ℕ
max_line_size = 1048576

pub data ReplayError : Type 0 where
  not_opened : String → ReplayError
  cancelled : String → ReplayError
  malformed : ℕ → String → ReplayError
  handler_failed : ℕ → String → ReplayError
  too_long : ReplayError

module _ {S : Type 0} (unmarshal : List ℕ → Result String TelemetryMessage)
    (context : ℕ → Option String) (handle : TelemetryMessage → S → S × Option String) where
  -- The loop of `Replay` from the line behind `line_num` on. The context is asked at each line;
  -- `stopped` says that the scanner found a line that is too long behind the last one; the scanner's
  -- other error, a read that fails, is left out. The state of the handler is passed on.
  unfoldable pub replay_lines : ℕ → ℕ → List (List ℕ) → Bool → S → S × ℕ × Option ReplayError
  replay_lines count line_num [] stopped s = (s, count, if stopped then some too_long else none)
  replay_lines count line_num (line ∷ lines) stopped s = elim (context (line_num + 1)) [
    | some e ↦ (s, count, some (cancelled e))
    | none ↦ elim (length line == 0) [
      | true ↦ replay_lines count (line_num + 1) lines stopped s
      | false ↦ elim (unmarshal line) [
        | err e ↦ (s, count, some (malformed (line_num + 1) e))
        | ok msg ↦ elim ((handle msg s).1) [
          | some e ↦ ((handle msg s).0, count, some (handler_failed (line_num + 1) e))
          | none ↦ replay_lines (count + 1) (line_num + 1) lines stopped (handle msg s).0
        ]
      ]
    ]
  ]

  -- `err e`: the file cannot be opened.
  unfoldable pub replay : Result String (List ℕ) → S → S × ℕ × Option ReplayError
  unfolding replay_lines
  replay (err e) s = (s, 0, some (not_opened e))
  replay (ok file) s =
      let (lines, stopped) = scan max_line_size file in replay_lines 0 0 lines stopped s
