-- ===== src/Simulator/Command/Sent.antt =====
-- What the command has sent and printed, counted by itself.
use mathlib.Core.List.{append-nil}
use sentinelstream.Prelude.{
  ℕ, suc, ◌+◌, ◌*◌, ◌≤◌, ◌≡◌, refl, Bool, true, false, Option, none, some, List, [], ◌∷◌, ◌++◌,
  String, Result, ok, err, if◌then◌else◌, take, arith, pos, ◌≤ℤ◌, pos_part, neg_part, ltb_ℤ,
  -ℤ_parts,
}
use sentinelstream.Clock.{Time, elapsed}
use sentinelstream.Protocol.Types.{TelemetryMessage}
use sentinelstream.Simulator.Random.{Marshaller}
use sentinelstream.Simulator.Sender.{SendError}
use sentinelstream.Simulator.Command.{
  Wire, no_sender, datagrams, stream, Failure, send_over, Line, send_error, shown, summary,
  farewell, simulator_error, Front, Readings, error_lines, summarise, pass_on,
}

abbrev pub Try : Type 0
Try = TelemetryMessage × Failure

abbrev pub packet_of : Result String (List ℕ) → Failure → List (List ℕ)
packet_of (err e) failure = []
packet_of (ok bytes) none = bytes ∷ []
packet_of (ok bytes) (some f) = []

abbrev pub chunk_of : Result String (List ℕ) → Failure → List ℕ
chunk_of (err e) failure = []
chunk_of (ok bytes) none = bytes ++ 10 ∷ []
chunk_of (ok bytes) (some (e, n)) = take n (bytes ++ 10 ∷ [])

module _ (marshal : Marshaller) where
  -- The datagrams of the messages whose write came through, the newest message first in the list.
  unfoldable pub packets : List Try → List (List ℕ)
  packets [] = []
  packets ((msg, failure) ∷ tries) =
      packets tries ++ packet_of (marshal.telemetry_message msg) failure

  -- The lines of the messages, cut off where a write failed.
  unfoldable pub chunks : List Try → List ℕ
  chunks [] = []
  chunks ((msg, failure) ∷ tries) = chunks tries ++ chunk_of (marshal.telemetry_message msg) failure

  -- What a connection has carried that was empty at first.
  unfoldable pub loaded : List Try → Wire → Wire
  unfolding packets chunks
  loaded tries no_sender = no_sender
  loaded tries (datagrams ds) = datagrams (packets tries)
  loaded tries (stream bytes) = stream (chunks tries)

  pub send_over-loaded :
      (msg : TelemetryMessage) (failure : Failure) (tries : List Try) (wire : Wire)
      → (send_over marshal failure msg (loaded tries wire)).0 ≡ loaded ((msg, failure) ∷ tries) wire
  unfolding send_over loaded
  send_over-loaded msg failure tries no_sender = refl
  send_over-loaded msg none tries (datagrams ds) = ground (arith, append-nil (packets tries))
  send_over-loaded msg (some f) tries (datagrams ds) = ground (arith, append-nil (packets tries))
  send_over-loaded msg none tries (stream bytes) = ground (arith, append-nil (chunks tries))
  send_over-loaded msg (some (e, n)) tries (stream bytes) =
      ground (arith, append-nil (chunks tries))

unfoldable pub summaries : List Line → ℕ
summaries [] = 0
summaries (send_error e ∷ lines) = summaries lines
summaries (shown n msg ∷ lines) = summaries lines
summaries (summary n d ∷ lines) = suc (summaries lines)
summaries (farewell n d ∷ lines) = summaries lines
summaries (simulator_error ∷ lines) = summaries lines

pub summaries-append : (xs ys : List Line) → summaries (xs ++ ys) ≡ summaries xs + summaries ys
unfolding summaries
summaries-append [] ys = omega arith
summaries-append (send_error e ∷ xs) ys = summaries-append xs ys
summaries-append (shown n msg ∷ xs) ys = summaries-append xs ys
summaries-append (summary n d ∷ xs) ys = omega (arith, summaries-append xs ys)
summaries-append (farewell n d ∷ xs) ys = summaries-append xs ys
summaries-append (simulator_error ∷ xs) ys = summaries-append xs ys

summaries-none :
    (e : Option SendError) (verbose : Bool) (n : ℕ) (msg : TelemetryMessage)
    → summaries (error_lines e ++ (if verbose then shown n msg ∷ [] else [])) ≡ 0
unfolding summaries
summaries-none none true n msg = refl
summaries-none none false n msg = refl
summaries-none (some e) true n msg = refl
summaries-none (some e) false n msg = refl

-- There are five seconds for each summary since the start.
abbrev pub IsPaced : Front → Type 0
IsPaced f =
    pos_part f.start_time + 5000000000 * summaries f.printed + neg_part f.last_print_time
    ≤ pos_part f.last_print_time + neg_part f.start_time

elapsed-lt :
    (t u : Time)
    → ltb_ℤ (pos 5000000000) (elapsed t u) ≡ true
    → pos_part u + 5000000000 + neg_part t ≤ pos_part t + neg_part u
unfolding elapsed
elapsed-lt t u h = ground (arith, -ℤ_parts t u)

summarise-IsPaced :
    (at : Readings) (f : Front) → at.tested ≤ℤ at.noted → IsPaced f → IsPaced (summarise at f)
unfolding summarise summaries
summarise-IsPaced at f h p = ground (
  arith,
  elapsed-lt at.tested f.last_print_time,
  summaries-append f.printed (summary f.message_count (elapsed at.measured f.start_time) ∷ []),
)

summarise_keeps :
    (at : Readings) (f : Front)
    → ((summarise at f).wire ≡ f.wire) × ((summarise at f).message_count ≡ f.message_count)
unfolding summarise
summarise_keeps at f = ground arith

module _ (marshal : Marshaller) (verbose : Bool) (failure : Failure) (at : Readings)
    (msg : TelemetryMessage) (f : Front) where
  pub pass_on_counts :
      ((pass_on marshal verbose failure at msg f).wire ≡ (send_over marshal failure msg f.wire).0)
      × ((pass_on marshal verbose failure at msg f).message_count ≡ f.message_count + 1)
  unfolding pass_on
  pass_on_counts = summarise_keeps at _

  pub pass_on-IsPaced :
      at.tested ≤ℤ at.noted → IsPaced f → IsPaced (pass_on marshal verbose failure at msg f)
  unfolding pass_on
  pass_on-IsPaced h p =
      let e = (send_over marshal failure msg f.wire).1 in
      let n = f.message_count + 1 in
      let lines = error_lines e ++ (if verbose then shown n msg ∷ [] else []) in
      summarise-IsPaced at _ h
        (omega (arith, summaries-append f.printed lines, summaries-none e verbose n msg))
