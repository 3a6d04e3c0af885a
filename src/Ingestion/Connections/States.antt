-- ===== src/Ingestion/Connections/States.antt =====
-- What Invariant says of a state of the TCP listener, part by part, and the counts it takes of it.
use mathlib.Core.List.{reverse}
use sentinelstream.Prelude.{
  ℕ, suc, ◌+◌, ◌%◌, ◌≤◌, ◌≡◌, refl, Bool, true, false, List, [], ◌∷◌, ◌++◌, length, u64_mod, arith,
  length-append, pos,
}
use sentinelstream.Ingestion.Tcp.{Phase}
use sentinelstream.Ingestion.Connections.{
  System, Handler, Accepting, listening, arrived, registered, counted, selecting, ended, Stopping,
  untouched, marked, signalled, deaf, swept, done, given_up,
}

-- How many of the handlers stand at a select with a message.
unfoldable pub waiting : List Handler → ℕ
waiting [] = 0
waiting ((conn, phase) ∷ hs) = given_up phase + waiting hs

waiting-append : (xs ys : List Handler) → waiting (xs ++ ys) ≡ waiting xs + waiting ys
unfolding waiting
waiting-append [] ys = omega arith
waiting-append ((conn, phase) ∷ xs) ys = omega (arith, waiting-append xs ys)

-- Whether `Stop` has closed the channels.
abbrev pub channels_closed : Stopping → Bool
channels_closed untouched = false
channels_closed marked = false
channels_closed signalled = false
channels_closed deaf = false
channels_closed swept = false
channels_closed done = true

-- Whether `Stop` has closed the stop channel.
abbrev pub stop_signalled : Stopping → Bool
stop_signalled untouched = false
stop_signalled marked = false
stop_signalled signalled = true
stop_signalled deaf = true
stop_signalled swept = true
stop_signalled done = true

-- Is a connection counted as active whose handler has not been started?
abbrev pub launching : Accepting → ℕ
launching listening = 0
launching (arrived conn) = 0
launching (registered conn) = 0
launching (counted conn) = 1
launching (selecting phase) = 0
launching ended = 0

-- Is a connection accepted that is not counted among all of them yet?
abbrev pub arriving : Accepting → ℕ
arriving listening = 0
arriving (arrived conn) = 1
arriving (registered conn) = 1
arriving (counted conn) = 1
arriving (selecting phase) = 0
arriving ended = 0

-- The accept loop never stands at a select with a message.
abbrev pub sends : Accepting → ℕ
sends listening = 0
sends (arrived conn) = 0
sends (registered conn) = 0
sends (counted conn) = 0
sends (selecting phase) = given_up phase
sends ended = 0

pub record Inv (size : ℕ) (s : System) : Type 0 where
  pub safe : s.crashed ≡ false
  pub open_messages : s.listener.messages.closed ≡ channels_closed s.stopping
  pub open_errors : s.listener.errors.closed ≡ channels_closed s.stopping
  pub signal : s.listener.stop_closed ≡ stop_signalled s.stopping
  pub at_rest : s.stopping ≡ done → (s.accepting ≡ ended) × (s.handlers ≡ [])
  pub active : s.listener.active_connections ≡ pos (length s.handlers + launching s.accepting)
  pub total :
      (s.listener.total_connections + arriving s.accepting) % u64_mod ≡ s.next_conn % u64_mod
  pub fifo : reverse s.sent ≡ reverse s.taken ++ s.listener.messages.buffer
  pub capacity : s.listener.messages.capacity ≡ size
  pub bounded : length s.listener.messages.buffer ≤ size
  pub received :
      s.listener.messages_received % u64_mod
      ≡ (length s.sent + waiting s.handlers + s.abandoned) % u64_mod
  pub reports : sends s.accepting ≡ 0

pub not_empty :
    (before : List Handler) (h : Handler) (behind : List Handler) → before ++ h ∷ behind ≡ [] → ⊥
not_empty [] h behind e = ground arith
not_empty (x ∷ before) h behind e = ground arith

-- The count of a list with a handler in the middle.
pub length-middle :
    (before : List Handler) (h : Handler) (behind : List Handler)
    → length (before ++ h ∷ behind) ≡ suc (length (before ++ behind))
length-middle before h behind =
    omega (arith, length-append before (h ∷ behind), length-append before behind)

pub waiting-middle :
    (before : List Handler) (conn : ℕ) (phase : Phase) (behind : List Handler)
    → waiting (before ++ (conn, phase) ∷ behind) ≡ given_up phase + waiting (before ++ behind)
unfolding waiting
waiting-middle before conn phase behind =
    omega (arith, waiting-append before ((conn, phase) ∷ behind), waiting-append before behind)

pub channels_closed_done : (x : Stopping) → channels_closed x ≡ true → x ≡ done
channels_closed_done untouched h = ground arith
channels_closed_done marked h = ground arith
channels_closed_done signalled h = ground arith
channels_closed_done deaf h = ground arith
channels_closed_done swept h = ground arith
channels_closed_done done h = refl
