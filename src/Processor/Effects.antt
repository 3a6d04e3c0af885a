-- ===== src/Processor/Effects.antt =====
-- What each operation of the pool does to its queue and its channels.
use sentinelstream.Prelude.{
  ◌<◌, ◌≡◌, Bool, true, none, some, [], ◌∷◌, ◌++◌, String, length, returns, panics, arith, close,
  send, ◌≤◌, ◌⊎◌, inl, inr, refl, Bool-cases,
}
use sentinelstream.Processor.Pool.{Processor, stop_signal, stop_close}
use sentinelstream.Processor.System.{Message, Entry, enqueues, tries, select_of}

-- What a send that comes through does to the processor.
pub record Delivery (msg : Message) (p q : Processor) : Type 0 where
  pub buffer : q.jobs.buffer ≡ p.jobs.buffer ++ msg ∷ []
  pub room : length p.jobs.buffer < p.jobs.capacity
  pub capacity : q.jobs.capacity ≡ p.jobs.capacity
  pub closed : q.jobs.closed ≡ p.jobs.closed
  pub stop_closed : q.stop_closed ≡ p.stop_closed
  pub enqueued : q.total_messages_enqueued ≡ p.total_messages_enqueued

pub select-Delivery :
    (entry : Entry) (pick : Bool) (msg : Message) (p q : Processor)
    → select_of entry pick msg p ≡ returns (q, none)
    → Delivery msg p q
unfolding send
select-Delivery enqueues pick msg p q e = ground arith
select-Delivery tries pick msg p q e = ground arith

-- What an unsuccessful one leaves as it was.
pub record SameQueue (p q : Processor) : Type 0 where
  pub jobs : q.jobs ≡ p.jobs
  pub stop_closed : q.stop_closed ≡ p.stop_closed
  pub enqueued : q.total_messages_enqueued ≡ p.total_messages_enqueued

pub select-SameQueue :
    (entry : Entry) (pick : Bool) (msg : Message) (p q : Processor) (x : String)
    → select_of entry pick msg p ≡ returns (q, some x)
    → SameQueue p q
unfolding send
select-SameQueue enqueues pick msg p q x e = ground arith
select-SameQueue tries pick msg p q x e = ground arith

-- `TryEnqueue` of nil on a full queue.
abbrev pub IsNilTry : Entry → Message → Processor → Type 0
IsNilTry entry msg p = (entry ≡ tries) × (msg ≡ none) × (p.jobs.capacity ≤ length p.jobs.buffer)

-- A select panics only there, or on a closed queue.
pub select_panics :
    (entry : Entry) (pick : Bool) (msg : Message) (p : Processor)
    → select_of entry pick msg p ≡ panics
    → (p.jobs.closed ≡ true) ⊎ IsNilTry entry msg p
unfolding send
select_panics enqueues pick msg p e = inl (ground arith)
select_panics tries pick (some m) p e = inl (ground arith)
select_panics tries pick none p e = elim (Bool-cases p.jobs.closed) [
  | inl shut ↦ inl shut
  | inr open_queue ↦ inr (refl, refl, ground arith)
]

pub record Signalled (p q : Processor) : Type 0 where
  pub jobs : q.jobs ≡ p.jobs
  pub stop_closed : q.stop_closed ≡ true
  pub enqueued : q.total_messages_enqueued ≡ p.total_messages_enqueued

pub stop_signal-Signalled : (p q : Processor) → stop_signal p ≡ returns q → Signalled p q
stop_signal-Signalled p q e = ground arith

pub record Closed (p q : Processor) : Type 0 where
  pub capacity : q.jobs.capacity ≡ p.jobs.capacity
  pub buffer : q.jobs.buffer ≡ p.jobs.buffer
  pub closed : q.jobs.closed ≡ true
  pub stop_closed : q.stop_closed ≡ p.stop_closed
  pub enqueued : q.total_messages_enqueued ≡ p.total_messages_enqueued

pub stop_close-Closed : (p q : Processor) → stop_close p ≡ returns q → Closed p q
unfolding close
stop_close-Closed p q e = ground arith

-- `Stop` panics only at a channel that is closed already.
pub stop_signal_panics : (p : Processor) → stop_signal p ≡ panics → p.stop_closed ≡ true
stop_signal_panics p e = ground arith

pub stop_close_panics : (p : Processor) → stop_close p ≡ panics → p.jobs.closed ≡ true
unfolding close
stop_close_panics p e = ground arith
