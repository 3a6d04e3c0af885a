-- ===== src/Ingestion/Receiving.antt =====
-- The receive loop of the UDP listener on a sequence of reads, while nobody stops it and nobody
-- receives from its channels.
use mathlib.Core.List.{append_assoc, append-nil}
use sentinelstream.Prelude.{
  ℕ, ◌+◌, ◌≤◌, ◌<◌, ◌≡◌, refl, ap, ◌∙◌, Bool, true, false, none, some, List, [], ◌∷◌, ◌++◌, ℤ,
  length, length-append, add64, returns, Channel, send, arith,
}
use sentinelstream.Clock.{Time}
use sentinelstream.Protocol.Types.{TelemetryMessage}
use sentinelstream.Protocol.Parser.{Codec}
use sentinelstream.Ingestion.Udp.{
  UdpListener, ReceiveError, read_failed, rejected, Received, Readings, Round, goes_on, leaves,
  waits, crashes, receive_round, handle_content, handle_parsed, report_error, new_udp_listener,
  start, stop,
}
use sentinelstream.Ingestion.Reading.{
  Item, Fate, accepted, refused, failed, ignored, fate, messages_of, errors_of, refusals_of,
  then_round, all_messages, all_errors, refusals, receive_all, IsOpen, Has,
}

-- The listener after a read that it has room for.
abbrev received : Time → Fate → UdpListener → UdpListener
received now (accepted msg) l = record l {
  messages_received = add64 l.messages_received 1;
  messages = record (l.messages) { buffer = l.messages.buffer ++ msg ∷ [] };
}
received now (refused from e) l = record l {
  messages_rejected = add64 l.messages_rejected 1;
  last_error_time = now;
  last_error_message = some (from, rejected from e);
  errors = record (l.errors) { buffer = l.errors.buffer ++ rejected from e ∷ [] };
}
received now (failed from e) l = record l {
  last_error_time = now;
  last_error_message = some (from, read_failed e);
  errors = record (l.errors) { buffer = l.errors.buffer ++ read_failed e ∷ [] };
}
received now ignored l = l

-- There is room for `n` messages and `m` errors.
abbrev HasRoom : ℕ → ℕ → UdpListener → Type 0
HasRoom n m l =
    (length l.messages.buffer + n ≤ l.messages.capacity)
    × (length l.errors.buffer + m ≤ l.errors.capacity)

received-Has :
    (now : Time) (f : Fate) (l : UdpListener)
    → IsOpen l
    → Has (messages_of f) (errors_of f) (refusals_of f) l (received now f l)
received-Has now (accepted msg) l v = ground (arith, append-nil l.errors.buffer)
received-Has now (refused from e) l v = ground (arith, append-nil l.messages.buffer)
received-Has now (failed from e) l v = ground (arith, append-nil l.messages.buffer)
received-Has now ignored l v =
    ground (arith, append-nil l.messages.buffer, append-nil l.errors.buffer)

receive_round-received :
    (codec : Codec) (at : Readings) (got : Received) (l : UdpListener)
    → IsOpen l
    → HasRoom
        (length (messages_of (fate codec (at, got))))
        (length (errors_of (fate codec (at, got))))
        l
    → receive_round codec true at got l ≡ goes_on (received at.noted (fate codec (at, got)) l)
unfolding receive_round handle_content handle_parsed report_error send
receive_round-received codec at got l v room = ground arith

Has-trans :
    (ms ms' : List TelemetryMessage) (es es' : List ReceiveError) (n n' : ℕ) (k l m : UdpListener)
    → Has ms es n k l
    → Has ms' es' n' l m
    → Has (ms ++ ms') (es ++ es') (n + n') k m
Has-trans ms ms' es es' n n' k l m v w = record {
  messages =
      w.messages
      ∙ ap (λ (c : Channel TelemetryMessage). record c { buffer = c.buffer ++ ms' }) v.messages
      ∙ ap (λ b. record (k.messages) { buffer = b }) (append_assoc k.messages.buffer ms ms');
  errors =
      w.errors
      ∙ ap (λ (c : Channel ReceiveError). record c { buffer = c.buffer ++ es' }) v.errors
      ∙ ap (λ b. record (k.errors) { buffer = b }) (append_assoc k.errors.buffer es es');
  received = omega (arith, v.received, w.received, length-append ms ms');
  rejections = omega (arith, v.rejections, w.rejections);
  still_open = w.still_open;
}

receive_all-goes_on :
    (codec : Codec) (at : Readings) (got : Received) (items : List Item) (l m : UdpListener)
    → receive_round codec true at got l ≡ goes_on m
    → receive_all codec ((at, got) ∷ items) l ≡ receive_all codec items m
unfolding receive_all
receive_all-goes_on codec at got items l m h =
    ap (λ r. then_round r (λ l'. receive_all codec items l')) h

-- While there is room, the loop of a running listener goes on: the messages that parse are in the
-- one channel and the errors in the other, both in order, and the counters have grown, modulo 2^64,
-- by the number of messages and of rejected datagrams.
pub receive_all-Has :
    (codec : Codec) (items : List Item) (l : UdpListener)
    → IsOpen l
    → length l.messages.buffer + length (all_messages codec items) ≤ l.messages.capacity
    → length l.errors.buffer + length (all_errors codec items) ≤ l.errors.capacity
    → (l' : UdpListener) × (receive_all codec items l ≡ goes_on l')
      × Has (all_messages codec items) (all_errors codec items) (refusals codec items) l l'
unfolding receive_all all_messages all_errors refusals
receive_all-Has codec [] l v room room' =
    (l, refl, ground (arith, append-nil l.messages.buffer, append-nil l.errors.buffer))
receive_all-Has codec ((at, got) ∷ items) l v room room' =
    let f = fate codec (at, got) in
    let m = received at.noted f l in
    let h = received-Has at.noted f l v in
    let sizes = length-append (messages_of f) (all_messages codec items) in
    let sizes' = length-append (errors_of f) (all_errors codec items) in
    let now = length-append l.messages.buffer (messages_of f) in
    let now' = length-append l.errors.buffer (errors_of f) in
    let (l', e, w) =
      receive_all-Has codec items m h.still_open (rw h.messages (omega (arith, sizes, now)))
        (rw h.errors (omega (arith, sizes', now'))) in
    (
      l',
      receive_all-goes_on codec at got items l m
            (receive_round-received codec at got l v (omega (arith, sizes), omega (arith, sizes')))
          ∙ e,
      Has-trans (messages_of f) _ (errors_of f) _ (refusals_of f) _ l m l' h w,
    )

then_round-cases :
    (r : Round) (next : UdpListener → Round) (l' : UdpListener)
    → then_round r next ≡ goes_on l'
    → (m : UdpListener) × (r ≡ goes_on m) × (next m ≡ goes_on l')
then_round-cases (goes_on m) next l' h = (m, refl, h)
then_round-cases (leaves m) next l' h = absurd (ground arith)
then_round-cases (waits m) next l' h = absurd (ground arith)
then_round-cases crashes next l' h = absurd (ground arith)

receive_all-append :
    (codec : Codec) (items rest : List Item) (l l' : UdpListener)
    → receive_all codec items l ≡ goes_on l'
    → receive_all codec (items ++ rest) l ≡ receive_all codec rest l'
unfolding receive_all
receive_all-append codec [] rest l l' h = ap (receive_all codec rest) (ground arith)
receive_all-append codec ((at, got) ∷ items) rest l l' h =
    let (m, e, goes) = then_round-cases (receive_round codec true at got l) _ l' h in
    receive_all-goes_on codec at got (items ++ rest) l m e
    ∙ receive_all-append codec items rest m l' goes

-- The listener at a select that waits to send an error.
abbrev noted : Time → Fate → UdpListener → UdpListener
noted now (accepted msg) l = l
noted now (refused from e) l = record l {
  messages_rejected = add64 l.messages_rejected 1;
  last_error_time = now;
  last_error_message = some (from, rejected from e);
}
noted now (failed from e) l = record l {
  last_error_time = now;
  last_error_message = some (from, read_failed e);
}
noted now ignored l = l

noted_messages : (now : Time) (f : Fate) (l : UdpListener) → (noted now f l).messages ≡ l.messages
noted_messages now (accepted msg) l = refl
noted_messages now (refused from e) l = refl
noted_messages now (failed from e) l = refl
noted_messages now ignored l = refl

-- A read that gives an error, with the channel of errors full.
receive_round_full :
    (codec : Codec) (at : Readings) (got : Received) (l : UdpListener)
    → IsOpen l
    → l.errors.capacity ≤ length l.errors.buffer
    → 0 < length (errors_of (fate codec (at, got)))
    → (l' : UdpListener) × (receive_round codec true at got l ≡ waits l')
      × (l'.messages ≡ l.messages)
unfolding receive_round handle_content handle_parsed report_error send
receive_round_full codec at got l v full some_error =
    let f = fate codec (at, got) in (noted at.noted f l, ground arith, noted_messages at.noted f l)

-- A listener that was made and started.
abbrev pub listening : ℤ → ℕ → UdpListener
listening port size = (start none (new_udp_listener port size)).0

-- Nobody receives the errors: after ten of them, with room for the messages, the next error makes
-- the loop wait at its select, and nothing that comes later is read.
pub receive_all_waits :
    (codec : Codec) (port : ℤ) (size : ℕ) (items : List Item) (x : Item) (rest : List Item)
    → length (all_messages codec items) ≤ size
    → length (all_errors codec items) ≡ 10
    → 0 < length (errors_of (fate codec x))
    → (l : UdpListener) × (receive_all codec (items ++ x ∷ rest) (listening port size) ≡ waits l)
      × (l.messages.buffer ≡ all_messages codec items)
unfolding start new_udp_listener
receive_all_waits codec port size items (at, got) rest room ten some_error =
    let s = listening port size in
    let v : IsOpen s = record {
      running = refl;
      unstopped = refl;
      open_messages = refl;
      open_errors = refl;
    } in
    let (m, e, h) = receive_all-Has codec items s v (omega (arith, room)) (omega (arith, ten)) in
    let (l, w, same) =
      receive_round_full codec at got m h.still_open (rw h.errors (omega (arith, ten)))
        some_error in
    (
      l,
      receive_all-append codec items ((at, got) ∷ rest) s m e
          ∙ unfold receive_all in ap (λ r. then_round r (λ l'. receive_all codec rest l')) w,
      ap (λ (c : Channel TelemetryMessage). c.buffer) (same ∙ h.messages),
    )

-- `Stop` on a running listener closes its channels without a panic. Then a second `Stop` does
-- nothing, and a round of the loop leaves it, whatever is read.
pub stop_ends :
    (codec : Codec) (picks_send : Bool) (at : Readings) (got : Received) (l : UdpListener)
    → IsOpen l
    → (l' : UdpListener) × (stop l ≡ returns l')
      × (l'.messages.closed ≡ true)
      × (l'.errors.closed ≡ true)
      × (stop l' ≡ returns l')
      × (receive_round codec picks_send at got l' ≡ leaves l')
unfolding stop receive_round
stop_ends codec picks_send at got l v = (
  record l {
    is_running = false;
    stop_closed = true;
    messages = record (l.messages) { closed = true };
    errors = record (l.errors) { closed = true };
  },
  ground (arith, v.running, v.unstopped, v.open_messages, v.open_errors),
  refl,
  refl,
  refl,
  refl,
)
