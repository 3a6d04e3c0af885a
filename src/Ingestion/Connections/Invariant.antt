-- ===== src/Ingestion/Connections/Invariant.antt =====
-- What holds of the TCP listener in every state that it reaches.
use mathlib.Core.List.{reverse}
use sentinelstream.Prelude.{
  fifo_send, fifo_take, ℕ, ◌+◌, ◌≡◌, refl, sym, ap, subst, ◌∙◌, true, false, none, some, [], ◌∷◌,
  ◌++◌, length, arith, length-append, close, ℤ, pos, pos_part, neg_part, +ℤ_parts, eq_of_parts,
}
use sentinelstream.Protocol.Parser.{Codec}
use sentinelstream.Ingestion.Tcp.{
  reading, sending, reporting, insert_connection, count_active, count_total, close_connection,
  end_scan, stop_mark, close_channels, new_tcp_listener, start,
}
use sentinelstream.Ingestion.Connections.Effects.{
  fail_accept-Quiet, fail_accept_reports, select_phase-Quiet, select_reporting-Quiet,
  select_sending-Delivery, select_phase_kept, handle_line-Parsed, select_phase_panics,
  end_scan-Quiet, stop_mark-Still, Still-refl, stop_signal-Still, stop_signal_panics,
  close_channels_panics, close_channels-Closed,
}
use sentinelstream.Ingestion.Connections.{
  System, listening, arrived, registered, counted, selecting, ended, untouched, marked, signalled,
  deaf, swept, Step, Reach, here, next, arrive, register, count, launch, fail_end, fail_select,
  accept_select, accept_crash, line, deliver, report, leave, crash, hang_up, take, take_error, mark,
  signal, signal_crash, deafen, sweep, finish, finish_crash,
}
use sentinelstream.Ingestion.Connections.States.{
  waiting, channels_closed, stop_signalled, launching, arriving, sends, Inv, length-middle,
  waiting-middle,
}
use sentinelstream.Ingestion.Connections.Preserved.{
  busy, moved, open_channels, accepting-Inv, phase-Inv, exit-Inv, stopping-Inv, Quiet-Parsed,
}

true-ne-false : true ≡ false → ⊥
true-ne-false h = cc h

Step-Inv : (size : ℕ) {codec : Codec} {s t : System} → Step codec s t → Inv size s → Inv size t
unfolding stop_mark close_channels close
Step-Inv size {codec} {s} (arrive c a o) v =
    accepting-Inv size s v s.listener (arrived s.next_conn) (s.next_conn + 1)
      (λ d. cc (a, (v.at_rest d).0)) (ground arith) (omega (arith, v.total, ap arriving a))
      (sym (ap launching a)) refl
Step-Inv size {codec} {s} (register conn c a) v =
    accepting-Inv size s v (insert_connection conn s.listener) (registered conn) s.next_conn
      (λ d. absurd (ground (arith, a, (v.at_rest d).0))) (ground arith)
      (omega (arith, v.total, ap arriving a)) (sym (ap launching a)) refl
Step-Inv size {codec} {s} (count conn c a) v =
    moved size s v (count_active s.listener) (counted conn) s.handlers s.next_conn s.abandoned refl
      refl refl refl refl
      (eq_of_parts _ _ (
        omega (
          arith,
          +ℤ_parts s.listener.active_connections (pos 1),
          ap pos_part v.active,
          ap neg_part v.active,
          ap launching a,
        )))
      (omega (arith, v.total, ap arriving a)) v.received
      (λ d. absurd (ground (arith, a, (v.at_rest d).0))) refl
Step-Inv size {codec} {s} (launch conn c a) v =
    moved size s v (count_total s.listener) listening ((conn, reading) ∷ s.handlers) s.next_conn
      s.abandoned refl refl refl refl refl (v.active ∙ ap pos (omega (arith, ap launching a)))
      (omega (arith, v.total, ap arriving a)) (unfold waiting in omega (arith, v.received))
      (λ d. absurd (ground (arith, a, (v.at_rest d).0))) refl
Step-Inv size {codec} {s} (fail_end now e l c a h) v =
    accepting-Inv size s v l ended s.next_conn (λ d. refl)
      (fail_accept-Quiet now e s.listener l none h) (omega (arith, v.total, ap arriving a))
      (sym (ap launching a)) refl
Step-Inv size {codec} {s} (fail_select now e l phase c a h) v =
    accepting-Inv size s v l (selecting phase) s.next_conn
      (λ d. absurd (ground (arith, a, (v.at_rest d).0)))
      (fail_accept-Quiet now e s.listener l (some phase) h) (omega (arith, v.total, ap arriving a))
      (sym (ap launching a)) (fail_accept_reports now e s.listener l phase h)
Step-Inv size {codec} {s} (accept_select pick phase l true c a h) v =
    accepting-Inv size s v l listening s.next_conn
      (λ d. absurd (ground (arith, a, (v.at_rest d).0)))
      (select_phase_kept pick phase s.listener l true (sym (ap sends a) ∙ v.reports) h)
      (omega (arith, v.total, ap arriving a)) (sym (ap launching a)) refl
Step-Inv size {codec} {s} (accept_select pick phase l false c a h) v =
    accepting-Inv size s v l ended s.next_conn (λ d. refl)
      (select_phase_kept pick phase s.listener l false (sym (ap sends a) ∙ v.reports) h)
      (omega (arith, v.total, ap arriving a)) (sym (ap launching a)) refl
Step-Inv size {codec} {s} (accept_crash pick phase c a h) v = absurd (
    open_channels size s v (λ d. ground (arith, a, (v.at_rest d).0))
      (select_phase_panics pick phase s.listener h))
Step-Inv size {codec} {s} (line at from bytes conn before behind l phase c e h) v =
    phase-Inv size s v conn reading phase before behind l e refl
      (handle_line-Parsed codec at from bytes s.listener l phase h)
Step-Inv size {codec} {s} (deliver pick msg conn before behind l c e h) v =
    let q = select_sending-Delivery pick msg s.listener l h in
    let hs = before ++ (conn, reading) ∷ behind in
    let same = length-middle before (conn, reading) behind in
    let same' = length-middle before (conn, sending msg) behind in
    record {
      safe = v.safe;
      open_messages = q.kept.closed_messages ∙ v.open_messages;
      open_errors = q.kept.closed_errors ∙ v.open_errors;
      signal = q.kept.stop_closed ∙ v.signal;
      at_rest = λ d. absurd (busy size s v before (conn, sending msg) behind e d);
      active =
          q.kept.active
          ∙ v.active
          ∙ ap (λ k. pos (k + launching s.accepting)) (omega (arith, ap length e, same, same'));
      total = omega (arith, q.kept.total, v.total);
      fifo = rw q.buffer (fifo_send msg s.sent s.taken s.listener.messages.buffer v.fifo);
      capacity = q.kept.capacity ∙ v.capacity;
      bounded = omega (
        arith,
        ap length q.buffer,
        length-append s.listener.messages.buffer (msg ∷ []),
        q.room,
        v.capacity,
      );
      received = omega (
        arith,
        q.received,
        v.received,
        ap waiting e,
        waiting-middle before conn reading behind,
        waiting-middle before conn (sending msg) behind,
      );
      reports = v.reports;
    }
Step-Inv size {codec} {s} (report pick e conn before behind l c p h) v =
    phase-Inv size s v conn (reporting e) reading before behind l p refl
      (Quiet-Parsed reading s.listener l refl (select_reporting-Quiet pick e s.listener l h))
Step-Inv size {codec} {s} (leave pick phase conn before behind l c e h) v =
    exit-Inv size s v conn phase before behind l e (select_phase-Quiet pick phase s.listener l h)
Step-Inv size {codec} {s} (crash pick phase conn before behind c e h) v = absurd (
    open_channels size s v (busy size s v before (conn, phase) behind e)
      (select_phase_panics pick phase s.listener h))
Step-Inv size {codec} {s} (hang_up now from e conn before behind c p) v =
    let l = close_connection conn (end_scan now from e s.listener) in
    let n : s.abandoned + 0 ≡ s.abandoned = omega arith in
    subst (λ k. Inv size (record s { listener = l; handlers = before ++ behind; abandoned = k })) n
      (exit-Inv size s v conn reading before behind (end_scan now from e s.listener) p
        (end_scan-Quiet now from e s.listener))
Step-Inv size {codec} {s} (take msg rest c e) v = record {
  safe = v.safe;
  open_messages = v.open_messages;
  open_errors = v.open_errors;
  signal = v.signal;
  at_rest = v.at_rest;
  active = v.active;
  total = v.total;
  fifo = fifo_take msg s.sent s.taken rest (v.fifo ∙ ap (λ b. reverse s.taken ++ b) e);
  capacity = v.capacity;
  bounded = omega (arith, ap length e, v.bounded);
  received = v.received;
  reports = v.reports;
}
Step-Inv size {codec} {s} (take_error e rest c p) v = record {
  safe = v.safe;
  open_messages = v.open_messages;
  open_errors = v.open_errors;
  signal = v.signal;
  at_rest = v.at_rest;
  active = v.active;
  total = v.total;
  fifo = v.fifo;
  capacity = v.capacity;
  bounded = v.bounded;
  received = v.received;
  reports = v.reports;
}
Step-Inv size {codec} {s} (mark c e r) v =
    stopping-Inv size s v (stop_mark s.listener) marked s.socket_open s.closed refl
      (ap channels_closed e) (v.signal ∙ ap stop_signalled e) (stop_mark-Still s.listener)
Step-Inv size {codec} {s} (signal l c e h) v =
    let (still, flag) = stop_signal-Still s.listener l h in
    stopping-Inv size s v l signalled s.socket_open s.closed refl (ap channels_closed e) flag still
Step-Inv size {codec} {s} (signal_crash c e h) v =
    absurd (true-ne-false (sym (stop_signal_panics s.listener h) ∙ v.signal ∙ ap stop_signalled e))
Step-Inv size {codec} {s} (deafen c e) v =
    stopping-Inv size s v s.listener deaf false s.closed refl (ap channels_closed e)
      (v.signal ∙ ap stop_signalled e) (Still-refl s.listener)
Step-Inv size {codec} {s} (sweep c e) v =
    stopping-Inv size s v s.listener swept s.socket_open s.listener.connections refl
      (ap channels_closed e) (v.signal ∙ ap stop_signalled e) (Still-refl s.listener)
Step-Inv size {codec} {s} (finish_crash c e a h q) v =
    absurd (open_channels size s v (λ d. cc (sym e ∙ d)) (close_channels_panics s.listener q))
Step-Inv size {codec} {s} (finish l c e a h q) v =
    let z = close_channels-Closed s.listener l q in
    record {
      safe = v.safe;
      open_messages = z.messages;
      open_errors = z.errors;
      signal = z.stop_closed ∙ v.signal ∙ ap stop_signalled e;
      at_rest = λ d. (a, h);
      active = z.active ∙ v.active;
      total = omega (arith, z.total, v.total);
      fifo = v.fifo ∙ ap (λ b. reverse s.taken ++ b) (sym z.buffer);
      capacity = z.capacity ∙ v.capacity;
      bounded = omega (arith, ap length z.buffer, v.bounded);
      received = omega (arith, z.received, v.received);
      reports = v.reports;
    }

-- The listener that was made and started.
unfoldable pub started : ℤ → ℕ → System
started port size = record {
  listener = (start none (new_tcp_listener port size)).0;
  accepting = listening;
  handlers = [];
  socket_open = true;
  closed = [];
  next_conn = 0;
  stopping = untouched;
  crashed = false;
  sent = [];
  taken = [];
  abandoned = 0;
}

started-Inv : (port : ℤ) (size : ℕ) → Inv size (started port size)
unfolding started start new_tcp_listener waiting
started-Inv port size = record {
  safe = refl;
  open_messages = refl;
  open_errors = refl;
  signal = refl;
  at_rest = λ d. ground (arith, d);
  active = refl;
  total = refl;
  fifo = refl;
  capacity = refl;
  bounded = omega arith;
  received = refl;
  reports = refl;
}

Reach-Inv : (size : ℕ) {codec : Codec} {s t : System} → Inv size s → Reach codec s t → Inv size t
Reach-Inv size v here = v
Reach-Inv size v (next r st) = Step-Inv size st (Reach-Inv size v r)

-- In every state that a started TCP listener reaches, nothing has panicked, `Stop` included, and the
-- channels are closed only behind the last step of `Stop`, when the accept loop and all handlers have
-- ended, and the stop channel from its signal on; the number of active connections is that of the
-- running handlers and of one that is about to be started, and that of all connections counts those
-- accepted, modulo 2^64 and but for one that is not counted yet; the channel holds at most as many
-- messages as it was made for, and the messages sent are, in their order, those received from it and
-- those in it; the messages counted as received are those sent, those at a select, and those given up
-- because of `Stop`, modulo 2^64.
pub connections_invariant :
    (codec : Codec) (port : ℤ) (size : ℕ) {s : System}
    → Reach codec (started port size) s
    → Inv size s
connections_invariant codec port size r = Reach-Inv size (started-Inv port size) r
