-- ===== src/Ingestion/Datagrams/Invariant.antt =====
-- What holds of the UDP listener in every state that it reaches.
use mathlib.Core.List.{reverse}
use sentinelstream.Prelude.{
  fifo_send, fifo_take, ℕ, ◌+◌, refl, sym, ap, subst, ◌∙◌, false, none, [], ◌∷◌, ◌++◌, length,
  arith, length-append, ℤ, inl, inr,
}
use sentinelstream.Protocol.Parser.{Codec}
use sentinelstream.Ingestion.Udp.{new_udp_listener, start}
use sentinelstream.Ingestion.Datagrams.{
  sending, reporting, checking, reading, selecting, ended, check_stop, untouched, signalled, done,
  System, Step, Reach, here, next, check, read, deliver, leave, crash, take, take_error, signal,
  signal_crash, finish, finish_crash,
}
use sentinelstream.Ingestion.Datagrams.Selects.{
  held, Keeps, read_datagram-Keeps, Selected, select_phase-Selected,
}
use sentinelstream.Ingestion.Datagrams.States.{
  is_done, is_touched, Inv, held-check_stop, signalled_lem, signal_panics, closed_lem, close_panics,
  busy, moved, false-ne-true,
}

module _ (size : ℕ) where
  Step-Inv : {codec : Codec} {s t : System} → Step codec s t → Inv size s → Inv size t
  Step-Inv {s} (check c p) v =
      moved size s s.listener (check_stop s.listener) s.abandoned v
        (record { messages = refl; errors = refl; stop_closed = refl })
        (λ d. absurd (busy size s checking v p (λ h. cc h) (ap is_done d)))
        (omega (arith, v.received, held-check_stop s.listener, ap held p))
  Step-Inv {codec} {s} (read at from content l place c p e) v =
      let (k, n) =
        subst (Keeps s.listener) e (read_datagram-Keeps codec at from content s.listener) in
      moved size s l place s.abandoned v k
        (λ d. absurd (busy size s reading v p (λ h. cc h) (ap is_done d)))
        (omega (arith, v.received, n, ap held p))
  Step-Inv {s} (deliver pick (sending msg) l c p e) v =
      let (same, room) =
        subst (Selected (sending msg) s.listener) e
          (select_phase-Selected pick (sending msg) s.listener) in
      subst (λ k. Inv size (record s { listener = k; place = checking; sent = msg ∷ s.sent }))
        (sym same)
        (record {
          safe = v.safe;
          open_messages = v.open_messages;
          open_errors = v.open_errors;
          open_stop = v.open_stop;
          at_rest =
              λ d. absurd (busy size s (selecting (sending msg)) v p (λ h. cc h) (ap is_done d));
          fifo = fifo_send msg s.sent s.taken s.listener.messages.buffer v.fifo;
          capacity = v.capacity;
          bounded =
              omega (arith, length-append s.listener.messages.buffer (msg ∷ []), room, v.capacity);
          error_capacity = v.error_capacity;
          few_errors = v.few_errors;
          received = omega (arith, v.received, ap held p);
        })
  Step-Inv {s} (deliver pick (reporting x) l c p e) v =
      let (same, room) =
        subst (Selected (reporting x) s.listener) e
          (select_phase-Selected pick (reporting x) s.listener) in
      subst (λ k. Inv size (record s { listener = k; place = checking; sent = s.sent })) (sym same)
        (record {
          safe = v.safe;
          open_messages = v.open_messages;
          open_errors = v.open_errors;
          open_stop = v.open_stop;
          at_rest =
              λ d. absurd (busy size s (selecting (reporting x)) v p (λ h. cc h) (ap is_done d));
          fifo = v.fifo;
          capacity = v.capacity;
          bounded = v.bounded;
          error_capacity = v.error_capacity;
          few_errors =
              omega
                (arith, length-append s.listener.errors.buffer (x ∷ []), room, v.error_capacity);
          received = omega (arith, v.received, ap held p);
        })
  Step-Inv {s} (leave pick (sending msg) l c p e) v =
      let same =
        subst (Selected (sending msg) s.listener) e
          (select_phase-Selected pick (sending msg) s.listener) in
      subst (λ k. Inv size (record s { listener = k; place = ended; abandoned = s.abandoned + 1 }))
        (sym same)
        (moved size s s.listener ended (s.abandoned + 1) v
          (record { messages = refl; errors = refl; stop_closed = refl }) (λ d. refl)
          (omega (arith, v.received, ap held p)))
  Step-Inv {s} (leave pick (reporting x) l c p e) v =
      let same =
        subst (Selected (reporting x) s.listener) e
          (select_phase-Selected pick (reporting x) s.listener) in
      subst (λ k. Inv size (record s { listener = k; place = ended; abandoned = s.abandoned + 0 }))
        (sym same)
        (moved size s s.listener ended (s.abandoned + 0) v
          (record { messages = refl; errors = refl; stop_closed = refl }) (λ d. refl)
          (omega (arith, v.received, ap held p)))
  Step-Inv {s} (crash pick (sending msg) c p e) v =
      let shut =
        subst (Selected (sending msg) s.listener) e
          (select_phase-Selected pick (sending msg) s.listener) in
      absurd (busy size s (selecting (sending msg)) v p (λ h. cc h) (sym v.open_messages ∙ shut))
  Step-Inv {s} (crash pick (reporting x) c p e) v =
      let shut =
        subst (Selected (reporting x) s.listener) e
          (select_phase-Selected pick (reporting x) s.listener) in
      absurd (busy size s (selecting (reporting x)) v p (λ h. cc h) (sym v.open_errors ∙ shut))
  Step-Inv {s} (take msg rest c e) v = record {
    safe = v.safe;
    open_messages = v.open_messages;
    open_errors = v.open_errors;
    open_stop = v.open_stop;
    at_rest = v.at_rest;
    fifo = fifo_take msg s.sent s.taken rest (v.fifo ∙ ap (λ b. reverse s.taken ++ b) e);
    capacity = v.capacity;
    bounded = omega (arith, ap length e, v.bounded);
    error_capacity = v.error_capacity;
    few_errors = v.few_errors;
    received = v.received;
  }
  Step-Inv {s} (take_error x rest c e) v = record {
    safe = v.safe;
    open_messages = v.open_messages;
    open_errors = v.open_errors;
    open_stop = v.open_stop;
    at_rest = v.at_rest;
    fifo = v.fifo;
    capacity = v.capacity;
    bounded = v.bounded;
    error_capacity = v.error_capacity;
    few_errors = omega (arith, ap length e, v.few_errors);
    received = v.received;
  }
  Step-Inv {s} (signal l c u r e) v =
      let (shut, same) = signalled_lem s.listener l e in
      subst (λ k. Inv size (record s { listener = k; stopping = signalled })) (sym same)
        (record {
          safe = v.safe;
          open_messages = v.open_messages ∙ ap is_done u;
          open_errors = v.open_errors ∙ ap is_done u;
          open_stop = refl;
          at_rest = λ d. absurd (false-ne-true (ap is_done d));
          fifo = v.fifo;
          capacity = v.capacity;
          bounded = v.bounded;
          error_capacity = v.error_capacity;
          few_errors = v.few_errors;
          received = v.received;
        })
  Step-Inv {s} (signal_crash c u r e) v =
      absurd (false-ne-true (sym (v.open_stop ∙ ap is_touched u) ∙ signal_panics s.listener e))
  Step-Inv {s} (finish l c u p e) v =
      subst (λ k. Inv size (record s { listener = k; stopping = done }))
        (sym (closed_lem s.listener l e))
        (record {
          safe = v.safe;
          open_messages = refl;
          open_errors = refl;
          open_stop = v.open_stop ∙ ap is_touched u;
          at_rest = λ d. p;
          fifo = v.fifo;
          capacity = v.capacity;
          bounded = v.bounded;
          error_capacity = v.error_capacity;
          few_errors = v.few_errors;
          received = v.received;
        })
  Step-Inv {s} (finish_crash c u p e) v = elim (close_panics s.listener e) [
    | inl shut ↦ absurd (false-ne-true (sym (v.open_messages ∙ ap is_done u) ∙ shut))
    | inr shut ↦ absurd (false-ne-true (sym (v.open_errors ∙ ap is_done u) ∙ shut))
  ]

  Reach-Inv : {codec : Codec} {s t : System} → Inv size s → Reach codec s t → Inv size t
  Reach-Inv v here = v
  Reach-Inv v (next r st) = Step-Inv st (Reach-Inv v r)

-- The listener that was made and started.
unfoldable pub started : ℤ → ℕ → System
started port size = record {
  listener = (start none (new_udp_listener port size)).0;
  place = checking;
  stopping = untouched;
  crashed = false;
  sent = [];
  taken = [];
  abandoned = 0;
}

started-Inv : (port : ℤ) (size : ℕ) → Inv size (started port size)
unfolding started start new_udp_listener
started-Inv port size = record {
  safe = refl;
  open_messages = refl;
  open_errors = refl;
  open_stop = refl;
  at_rest = λ d. absurd (false-ne-true (ap is_done d));
  fifo = refl;
  capacity = refl;
  bounded = omega arith;
  error_capacity = refl;
  few_errors = omega arith;
  received = refl;
}

-- In every state that a started UDP listener reaches, nothing has panicked; its channels are closed
-- exactly behind the last step of `Stop`, when the receive loop has ended; they hold at most as many
-- messages as the listener was made for and ten errors; the messages sent are, in their order, those
-- received from the channel and those in it; and the messages counted as received are those sent, one
-- at a select, and one given up there because of `Stop`, modulo 2^64.
pub datagrams_invariant :
    (codec : Codec) (port : ℤ) (size : ℕ) {s : System}
    → Reach codec (started port size) s
    → Inv size s
datagrams_invariant codec port size r = Reach-Inv size (started-Inv port size) r
