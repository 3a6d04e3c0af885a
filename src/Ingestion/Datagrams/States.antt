-- ===== src/Ingestion/Datagrams/States.antt =====
-- What Invariant says of a state of the UDP listener, and how a step keeps it.
use mathlib.Core.List.{reverse}
use sentinelstream.Prelude.{
  ℕ, ◌+◌, ◌%◌, ◌≤◌, ◌≡◌, ◌⊎◌, refl, sym, ap, subst, ◌∙◌, Bool, true, false, ◌++◌, length, u64_mod,
  arith, returns, panics, close, Bool-cases, inl, inr, if◌then◌else◌,
}
use sentinelstream.Ingestion.Udp.{UdpListener, stop_receiving, close_channels}
use sentinelstream.Ingestion.Datagrams.{
  Place, reading, ended, check_stop, Stopping, untouched, signalled, done, System,
}
use sentinelstream.Ingestion.Datagrams.Selects.{held, SameChannels}

abbrev pub is_done : Stopping → Bool
is_done untouched = false
is_done signalled = false
is_done done = true

abbrev pub is_touched : Stopping → Bool
is_touched untouched = false
is_touched signalled = true
is_touched done = true

-- Of a listener whose channels have room for so many messages and for ten errors.
pub record Inv (size : ℕ) (s : System) : Type 0 where
  pub safe : s.crashed ≡ false
  pub open_messages : s.listener.messages.closed ≡ is_done s.stopping
  pub open_errors : s.listener.errors.closed ≡ is_done s.stopping
  pub open_stop : s.listener.stop_closed ≡ is_touched s.stopping
  pub at_rest : s.stopping ≡ done → s.place ≡ ended
  pub fifo : reverse s.sent ≡ reverse s.taken ++ s.listener.messages.buffer
  pub capacity : s.listener.messages.capacity ≡ size
  pub bounded : length s.listener.messages.buffer ≤ size
  pub error_capacity : s.listener.errors.capacity ≡ 10
  pub few_errors : length s.listener.errors.buffer ≤ 10
  pub received :
      s.listener.messages_received % u64_mod
      ≡ (length s.sent + held s.place + s.abandoned) % u64_mod

pub false-ne-true : false ≡ true → ⊥
false-ne-true h = cc h

pub is_done_iff : (x : Stopping) → is_done x ≡ true → x ≡ done
is_done_iff untouched h = absurd (false-ne-true h)
is_done_iff signalled h = absurd (false-ne-true h)
is_done_iff done h = refl

pub held-check_stop : (l : UdpListener) → held (check_stop l) ≡ 0
unfolding check_stop
held-check_stop l = elim (Bool-cases l.stop_closed) [
  | inl e ↦ ap (λ b. held (if b then ended else reading)) e
  | inr e ↦ ap (λ b. held (if b then ended else reading)) e
]

-- What `Stop` does with the listener before its wait, and behind it.
pub signalled_lem :
    (l l' : UdpListener)
    → stop_receiving l ≡ returns l'
    → (l.stop_closed ≡ false) × (l' ≡ record l { is_running = false; stop_closed = true })
unfolding stop_receiving
signalled_lem l l' h = ground (arith, h)

pub signal_panics : (l : UdpListener) → stop_receiving l ≡ panics → l.stop_closed ≡ true
unfolding stop_receiving
signal_panics l h = ground arith

pub closed_lem :
    (l l' : UdpListener)
    → close_channels l ≡ returns l'
    → l' ≡ record l {
      messages = record (l.messages) { closed = true };
      errors = record (l.errors) { closed = true };
    }
unfolding close_channels close
closed_lem l l' h = ground (arith, h)

pub close_panics :
    (l : UdpListener)
    → close_channels l ≡ panics
    → (l.messages.closed ≡ true) ⊎ (l.errors.closed ≡ true)
unfolding close_channels close
close_panics l h = ground (arith, h)

module _ (size : ℕ) where
  -- While the loop is not at its end, `Stop` has not closed the channels.
  pub busy :
      (s : System) (place : Place)
      → Inv size s
      → s.place ≡ place
      → (place ≡ ended → ⊥)
      → is_done s.stopping ≡ true
      → ⊥
  busy s place v e other h = other (sym e ∙ v.at_rest (is_done_iff s.stopping h))

  -- The loop moves on, and its channels stay as they are.
  pub moved :
      (s : System) (l : UdpListener) (place : Place) (abandoned : ℕ)
      → Inv size s
      → SameChannels s.listener l
      → (s.stopping ≡ done → place ≡ ended)
      → l.messages_received % u64_mod ≡ (length s.sent + held place + abandoned) % u64_mod
      → Inv size (record s { listener = l; place = place; abandoned = abandoned })
  moved s l place abandoned v k r n = record {
    safe = v.safe;
    open_messages = ap (λ c. c.closed) k.messages ∙ v.open_messages;
    open_errors = ap (λ c. c.closed) k.errors ∙ v.open_errors;
    open_stop = k.stop_closed ∙ v.open_stop;
    at_rest = r;
    fifo = v.fifo ∙ ap (λ c. reverse s.taken ++ c.buffer) (sym k.messages);
    capacity = ap (λ c. c.capacity) k.messages ∙ v.capacity;
    bounded = subst (λ c. length c.buffer ≤ size) (sym k.messages) v.bounded;
    error_capacity = ap (λ c. c.capacity) k.errors ∙ v.error_capacity;
    few_errors = subst (λ c. length c.buffer ≤ 10) (sym k.errors) v.few_errors;
    received = n;
  }
