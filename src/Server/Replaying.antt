-- ===== src/Server/Replaying.antt =====
-- The messages that the server recorded reach the queue of the replay command.
use mathlib.Core.Path.{ap₂}
use sentinelstream.Prelude.{
  ℕ, suc, ◌+◌, ◌≤◌, ◌≡◌, refl, ap, ◌∙◌, true, Option, none, some, List, [], ◌∷◌, String, Result, ok,
  ℤ, pos, length, length-append, All, arith, add64, returns,
}
use sentinelstream.Protocol.Types.{TelemetryMessage}
use sentinelstream.Processor.Pool.{Processor, new_processor, start}
use sentinelstream.Processor.Lifecycle.{IsLive}
use sentinelstream.Replay.Roundtrip.{IsRecordable, record_all, hand_on, replay-record_all}
use sentinelstream.Replay.Command.{enqueue_from, replayed, replay_command}
use sentinelstream.Server.Forwarding.{
  queued, queued-nil, queued-queued, queued-IsLive, enqueue-IsLive, booted, booted-IsLive,
  booted-room,
}

enqueue_from-IsLive :
    (msg : TelemetryMessage) (p : Processor)
    → IsLive p
    → length p.jobs.buffer + 1 ≤ p.jobs.capacity
    → enqueue_from true msg (returns p)
      ≡ (returns (queued (msg ∷ []) (add64 p.total_messages_enqueued 1) p), none)
unfolding enqueue_from
enqueue_from-IsLive msg p v room = rw (enqueue_from, enqueue-IsLive true msg p v (omega arith)) refl

hand_on-message :
    {S : Type 0} (handle : TelemetryMessage → S → S × Option String) (count line : ℕ)
    (msg : TelemetryMessage) (msgs : List TelemetryMessage) (s s' : S)
    → handle msg s ≡ (s', none)
    → hand_on (λ i. none) handle count line (msg ∷ msgs) s
      ≡ hand_on (λ i. none) handle (count + 1) (line + 1) msgs s'
unfolding hand_on
hand_on-message handle count line msg msgs s s' h = ground (arith, h)

hand_on-queued :
    (msgs : List TelemetryMessage) (count line : ℕ) (p : Processor)
    → IsLive p
    → length p.jobs.buffer + length msgs ≤ p.jobs.capacity
    → (n : ℕ) × (hand_on (λ i. none) (enqueue_from true) count line msgs (returns p)
        ≡ (returns (queued msgs n p), count + length msgs, none))
unfolding hand_on
hand_on-queued [] count line p v room =
    (p.total_messages_enqueued, ap₂ (λ q c. (returns q, c, none)) (queued-nil p) (omega arith))
hand_on-queued (msg ∷ msgs) count line p v room =
    let m = add64 p.total_messages_enqueued 1 in
    let next = queued (msg ∷ []) m p in
    let (n, e) =
      hand_on-queued msgs (count + 1) (line + 1) next (queued-IsLive (msg ∷ []) m p v)
        (omega (arith, length-append p.jobs.buffer (some msg ∷ []))) in
    (
      n,
      hand_on-message (enqueue_from true) count line msg msgs (returns p) (returns next)
            (enqueue_from-IsLive msg p v (omega arith))
          ∙ e
          ∙ ap₂ (λ q c. (returns q, c, none)) (queued-queued msg msgs m n p) (omega arith),
    )

-- A replay command with a queue of a positive size that the recorded messages fit in replays all of
-- them without an error, as long as no worker takes one.
pub replay_command-queued :
    (marshal : TelemetryMessage → Result String (List ℕ))
    (unmarshal : List ℕ → Result String TelemetryMessage) (workers : ℤ) (size : ℕ)
    (msgs : List TelemetryMessage)
    → length msgs ≤ suc size
    → All (IsRecordable marshal unmarshal) msgs
    → (n : ℕ) × (replay_command unmarshal
          (record { num_workers = workers; queue_size = pos (suc size) })
          (ok (record_all marshal msgs []))
        ≡ replayed (returns (queued msgs n (booted workers size))) (length msgs) none)
unfolding replay_command start new_processor
replay_command-queued marshal unmarshal workers size msgs h v =
    let proc = booted workers size in
    let (n, e) =
      hand_on-queued msgs 0 0 proc (booted-IsLive workers size)
        (booted-room workers size (length msgs) h) in
    (
      n,
      ap (λ r. replayed r.0 r.1 r.2)
            (replay-record_all marshal unmarshal (λ i. none) (enqueue_from true) msgs (returns proc)
                v
              ∙ e)
          ∙ ap (λ c. replayed (returns (queued msgs n proc)) c none) (omega arith),
    )
