-- ===== src/Replay/Roundtrip.antt =====
-- What was recorded is what is replayed.
use mathlib.Core.List.{append_assoc, append-nil}
use sentinelstream.Prelude.{
  ℕ, ◌+◌, ◌<◌, ◌≡◌, refl, sym, ap, ◌∙◌, false, Option, none, some, List, [], ◌∷◌, ◌++◌, String,
  Result, ok, length, All, arith,
}
use sentinelstream.Protocol.Types.{TelemetryMessage}
use sentinelstream.Replay.Scanner.{IsLine, unlines, scan-unlines}
use sentinelstream.Replay.Files.{
  ReplayError, cancelled, handler_failed, record_event, replay, replay_lines, max_line_size,
}

-- The message is marshalled to a line that is shorter than a MiB, not empty, and read back as it.
pub record IsRecordable (marshal : TelemetryMessage → Result String (List ℕ))
    (unmarshal : List ℕ → Result String TelemetryMessage) (msg : TelemetryMessage) : Type 0 where
  pub bytes : List ℕ
  pub marshalled : marshal msg ≡ ok bytes
  pub line : IsLine max_line_size bytes
  pub not_empty : 0 < length bytes
  pub read_back : unmarshal bytes ≡ ok msg

-- The file after the messages were recorded, in order, by writes that do not fail.
unfoldable pub record_all :
    (TelemetryMessage → Result String (List ℕ)) → List TelemetryMessage → List ℕ → List ℕ
record_all marshal [] file = file
record_all marshal (msg ∷ msgs) file =
    record_all marshal msgs (record_event marshal none msg file).0

-- Messages handed on one after another up to the first failure, which is the context's or the
-- handler's; `n` lines came before, and `count` messages were handed on.
unfoldable pub hand_on :
    {S : Type 0}
    → (ℕ → Option String)
    → (TelemetryMessage → S → S × Option String)
    → ℕ
    → ℕ
    → List TelemetryMessage
    → S
    → S × ℕ × Option ReplayError
hand_on context handle count n [] s = (s, count, none)
hand_on context handle count n (msg ∷ msgs) s = elim (context (n + 1)) [
  | some e ↦ (s, count, some (cancelled e))
  | none ↦ elim ((handle msg s).1) [
    | some e ↦ ((handle msg s).0, count, some (handler_failed (n + 1) e))
    | none ↦ hand_on context handle (count + 1) (n + 1) msgs (handle msg s).0
  ]
]

module _ (marshal : TelemetryMessage → Result String (List ℕ))
    (unmarshal : List ℕ → Result String TelemetryMessage) where
  -- The texts of the messages.
  abbrev texts :
      (msgs : List TelemetryMessage) → All (IsRecordable marshal unmarshal) msgs → List (List ℕ)
  texts [] a = []
  texts (msg ∷ msgs) (v, a) = v.bytes ∷ texts msgs a

  texts-IsLine :
      (msgs : List TelemetryMessage) (a : All (IsRecordable marshal unmarshal) msgs)
      → All (IsLine max_line_size) (texts msgs a)
  texts-IsLine [] a = tt
  texts-IsLine (msg ∷ msgs) (v, a) = (v.line, texts-IsLine msgs a)

  recorded-line :
      (msg : TelemetryMessage) (bytes file : List ℕ)
      → marshal msg ≡ ok bytes
      → (record_event marshal none msg file).0 ≡ file ++ (bytes ++ 10 ∷ [])
  unfolding record_event
  recorded-line msg bytes file e = ground (arith, e)

  record_all-texts :
      (msgs : List TelemetryMessage) (file : List ℕ) (a : All (IsRecordable marshal unmarshal) msgs)
      → record_all marshal msgs file ≡ file ++ unlines (texts msgs a)
  unfolding record_all unlines
  record_all-texts [] file a = sym (append-nil file)
  record_all-texts (msg ∷ msgs) file (v, a) =
      ap (record_all marshal msgs) (recorded-line msg v.bytes file v.marshalled)
      ∙ record_all-texts msgs (file ++ (v.bytes ++ 10 ∷ [])) a
      ∙ append_assoc file (v.bytes ++ 10 ∷ []) (unlines (texts msgs a))
      ∙ ap (λ l. file ++ l) (append_assoc v.bytes (10 ∷ []) (unlines (texts msgs a)))

  replay_lines-texts :
      {S : Type 0} (context : ℕ → Option String) (handle : TelemetryMessage → S → S × Option String)
      (count n : ℕ) (msgs : List TelemetryMessage) (s : S)
      (a : All (IsRecordable marshal unmarshal) msgs)
      → replay_lines unmarshal context handle count n (texts msgs a) false s
        ≡ hand_on context handle count n msgs s
  unfolding replay_lines hand_on
  replay_lines-texts context handle count n [] s a = refl
  replay_lines-texts context handle count n (msg ∷ msgs) s (v, a) =
      let rest = replay_lines-texts context handle (count + 1) (n + 1) msgs (handle msg s).0 a in
      ground (arith, v.read_back, v.not_empty, rest)

-- Messages that are recorded into an empty file without a failing write are replayed like messages
-- that are handed on directly: in their order, up to the first failure of the context or the handler,
-- with the number of messages handled before it and the number of the line where the handler fails;
-- provided that each message is marshalled to a line that is not empty, shorter than a MiB, and read
-- back as the message.
pub replay-record_all :
    {S : Type 0} (marshal : TelemetryMessage → Result String (List ℕ))
    (unmarshal : List ℕ → Result String TelemetryMessage) (context : ℕ → Option String)
    (handle : TelemetryMessage → S → S × Option String) (msgs : List TelemetryMessage) (s : S)
    → All (IsRecordable marshal unmarshal) msgs
    → replay unmarshal context handle (ok (record_all marshal msgs [])) s
      ≡ hand_on context handle 0 0 msgs s
unfolding replay
replay-record_all marshal unmarshal context handle msgs s a =
    let lines = texts marshal unmarshal msgs a in
    rw
      (
        record_all-texts marshal unmarshal msgs [] a,
        scan-unlines max_line_size lines (texts-IsLine marshal unmarshal msgs a),
      )
      (replay_lines-texts marshal unmarshal context handle 0 0 msgs s a)
