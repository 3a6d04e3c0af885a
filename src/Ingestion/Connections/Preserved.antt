-- ===== src/Ingestion/Connections/Preserved.antt =====
-- The steps of the TCP listener by their kind: what each kind changes in a state's counts and channels.
use mathlib.Core.List.{reverse}
use sentinelstream.Prelude.{
  ℕ, ◌+◌, ◌%◌, ◌≡◌, sym, ap, ◌∙◌, Bool, true, false, List, [], ◌∷◌, ◌++◌, length, u64_mod, arith,
  ◌⊎◌, inl, inr, pos, pos_part, neg_part, -ℤ_parts, eq_of_parts,
}
use sentinelstream.Ingestion.Tcp.{TcpListener, Phase, close_connection}
use sentinelstream.Ingestion.Connections.Effects.{Quiet, Parsed, Still}
use sentinelstream.Ingestion.Connections.{
  System, Handler, Accepting, ended, Stopping, done, given_up,
}
use sentinelstream.Ingestion.Connections.States.{
  waiting, channels_closed, stop_signalled, launching, arriving, sends, Inv, not_empty,
  length-middle, waiting-middle, channels_closed_done,
}

module _ (size : ℕ) (s : System) (v : Inv size s) where
  -- While a handler runs, `Stop` has not closed the channels.
  pub busy :
      (before : List Handler) (h : Handler) (behind : List Handler)
      → s.handlers ≡ before ++ h ∷ behind
      → s.stopping ≡ done
      → ⊥
  busy before h behind e d = not_empty before h behind (sym e ∙ (v.at_rest d).1)

  -- A step that neither sends nor receives a message.
  pub moved :
      (l : TcpListener) (accepting : Accepting) (handlers : List Handler) (n abandoned : ℕ)
      → l.messages.closed ≡ s.listener.messages.closed
      → l.errors.closed ≡ s.listener.errors.closed
      → l.messages.capacity ≡ s.listener.messages.capacity
      → l.messages.buffer ≡ s.listener.messages.buffer
      → l.stop_closed ≡ s.listener.stop_closed
      → l.active_connections ≡ pos (length handlers + launching accepting)
      → (l.total_connections + arriving accepting) % u64_mod ≡ n % u64_mod
      → l.messages_received % u64_mod ≡ (length s.sent + waiting handlers + abandoned) % u64_mod
      → (s.stopping ≡ done → (accepting ≡ ended) × (handlers ≡ []))
      → sends accepting ≡ 0
      → Inv size (record s {
        listener = l;
        accepting = accepting;
        handlers = handlers;
        next_conn = n;
        abandoned = abandoned;
      })
  moved l accepting handlers n abandoned a b c d j e f g h i = record {
    safe = v.safe;
    open_messages = a ∙ v.open_messages;
    open_errors = b ∙ v.open_errors;
    signal = j ∙ v.signal;
    at_rest = h;
    active = e;
    total = f;
    fifo = v.fifo ∙ ap (λ b'. reverse s.taken ++ b') (sym d);
    capacity = c ∙ v.capacity;
    bounded = omega (arith, ap length d, v.bounded);
    received = g;
    reports = i;
  }

  pub open_channels :
      (s.stopping ≡ done → ⊥)
      → ((s.listener.messages.closed ≡ true) ⊎ (s.listener.errors.closed ≡ true))
      → ⊥
  open_channels n (inl e) = n (channels_closed_done s.stopping (sym v.open_messages ∙ e))
  open_channels n (inr e) = n (channels_closed_done s.stopping (sym v.open_errors ∙ e))

  -- A step of the accept loop alone.
  pub accepting-Inv :
      (l : TcpListener) (accepting : Accepting) (n : ℕ)
      → (s.stopping ≡ done → accepting ≡ ended)
      → Quiet s.listener l
      → (s.listener.total_connections + arriving accepting) % u64_mod ≡ n % u64_mod
      → launching accepting ≡ launching s.accepting
      → sends accepting ≡ 0
      → Inv size (record s { listener = l; accepting = accepting; next_conn = n })
  accepting-Inv l accepting n a q t m r =
      moved l accepting s.handlers n s.abandoned q.kept.closed_messages q.kept.closed_errors
        q.kept.capacity q.buffer q.kept.stop_closed
        (q.kept.active ∙ v.active ∙ ap (λ k. pos (length s.handlers + k)) (sym m))
        (omega (arith, q.kept.total, t)) (omega (arith, q.received, v.received))
        (λ d. (a d, (v.at_rest d).1)) r

  -- A handler moves on.
  pub phase-Inv :
      (conn : ℕ) (phase phase' : Phase) (before behind : List Handler) (l : TcpListener)
      → s.handlers ≡ before ++ (conn, phase) ∷ behind
      → given_up phase ≡ 0
      → Parsed phase' s.listener l
      → Inv size (record s { listener = l; handlers = before ++ (conn, phase') ∷ behind })
  phase-Inv conn phase phase' before behind l e z q =
      moved l s.accepting (before ++ (conn, phase') ∷ behind) s.next_conn s.abandoned
        q.kept.closed_messages q.kept.closed_errors q.kept.capacity q.buffer q.kept.stop_closed
        (q.kept.active
          ∙ v.active
          ∙ ap pos (
              omega (
                arith,
                ap length e,
                length-middle before (conn, phase) behind,
                length-middle before (conn, phase') behind,
              )))
        (omega (arith, q.kept.total, v.total))
        (omega (
          arith,
          q.received,
          v.received,
          ap waiting e,
          z,
          waiting-middle before conn phase behind,
          waiting-middle before conn phase' behind,
        ))
        (λ d. absurd (busy before (conn, phase) behind e d)) v.reports

  -- A handler ends.
  pub exit-Inv :
      (conn : ℕ) (phase : Phase) (before behind : List Handler) (l : TcpListener)
      → s.handlers ≡ before ++ (conn, phase) ∷ behind
      → Quiet s.listener l
      → Inv size (record s {
        listener = close_connection conn l;
        handlers = before ++ behind;
        abandoned = s.abandoned + given_up phase;
      })
  unfolding close_connection
  exit-Inv conn phase before behind l e q =
      moved (close_connection conn l) s.accepting (before ++ behind) s.next_conn
        (s.abandoned + given_up phase) q.kept.closed_messages q.kept.closed_errors q.kept.capacity
        q.buffer q.kept.stop_closed
        (eq_of_parts _ _ (
          omega (
            arith,
            -ℤ_parts l.active_connections (pos 1),
            ap pos_part (q.kept.active ∙ v.active),
            ap neg_part (q.kept.active ∙ v.active),
            ap length e,
            length-middle before (conn, phase) behind,
          )))
        (omega (arith, q.kept.total, v.total))
        (omega
          (arith, q.received, v.received, ap waiting e, waiting-middle before conn phase behind))
        (λ d. absurd (busy before (conn, phase) behind e d)) v.reports

  -- A step of `Stop` that leaves the channels open.
  pub stopping-Inv :
      (l : TcpListener) (x : Stopping) (socket : Bool) (conns : List ℕ)
      → channels_closed x ≡ false
      → channels_closed s.stopping ≡ false
      → l.stop_closed ≡ stop_signalled x
      → Still s.listener l
      → Inv size (record s { listener = l; stopping = x; socket_open = socket; closed = conns })
  stopping-Inv l x socket conns y z w q = record {
    safe = v.safe;
    open_messages = q.closed_messages ∙ v.open_messages ∙ z ∙ sym y;
    open_errors = q.closed_errors ∙ v.open_errors ∙ z ∙ sym y;
    signal = w;
    at_rest = λ d. absurd (ground (arith, y, ap channels_closed d));
    active = q.active ∙ v.active;
    total = omega (arith, q.total, v.total);
    fifo = v.fifo ∙ ap (λ b. reverse s.taken ++ b) (sym q.buffer);
    capacity = q.capacity ∙ v.capacity;
    bounded = omega (arith, ap length q.buffer, v.bounded);
    received = omega (arith, q.received, v.received);
    reports = v.reports;
  }

pub Quiet-Parsed :
    (phase : Phase) (l l' : TcpListener) → given_up phase ≡ 0 → Quiet l l' → Parsed phase l l'
Quiet-Parsed phase l l' z q = record {
  kept = q.kept;
  buffer = q.buffer;
  received = omega (arith, q.received, z);
}
