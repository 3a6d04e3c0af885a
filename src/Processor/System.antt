-- ===== src/Processor/System.antt =====
-- The pool at work: callers of `Enqueue` and `TryEnqueue`, the workers, and one `Stop`, in any
-- order of their steps. A caller tests `isRunning` in one step, reaches its `select` in a later one,
-- and counts its message in a third. What a worker does to the shared state while it handles a message is
-- left open here: it does not touch the queue.
use sentinelstream.Prelude.{
  ℕ, zero, suc, ◌≡◌, Bool, true, false, Option, none, some, List, [], ◌∷◌, ◌++◌, String, Outcome,
  returns, panics, ◌⊎◌,
}
use sentinelstream.Protocol.Types.{TelemetryMessage}
use sentinelstream.Processor.Worker.{Worker, Shared}
use sentinelstream.Processor.Pool.{
  Processor, stop_mark, stop_signal, stop_close, put, count_enqueued, enqueue_select,
  try_enqueue_select,
}

-- What a worker's goroutine does.
pub data Phase : Type 0 where
  idle : Phase
  busy : Option TelemetryMessage → Phase
  exited : Phase

-- How far `Stop` is.
pub data Stopping : Type 0 where
  untouched marked signalled done : Stopping

-- Where a caller of `Enqueue` or `TryEnqueue` stands: at the select of the one or the other, or behind
-- its send and before it counts the message.
pub data Entry : Type 0 where
  enqueues tries : Entry

abbrev pub Message : Type 0
Message = Option TelemetryMessage

pub data Caller : Type 0 where
  selecting : Entry → Message → Caller
  counting : Caller

abbrev pub select_of : Entry → Bool → Message → Processor → Outcome (Processor × Option String)
select_of enqueues pick msg p = enqueue_select put pick msg p
select_of tries pick msg p = try_enqueue_select put msg p

-- `accepted` and `taken` are no part of the program: they record the messages that went into the queue
-- and out of it, the newest first.
pub record System : Type 0 where
  pub proc : Processor
  pub phases : List Phase
  pub callers : List Caller
  pub stopping : Stopping
  pub crashed : Bool
  pub accepted : List Message
  pub taken : List Message

pub data Step (s : System) : System → Type 0 where
  -- A caller finds the pool running; one that does not only returns an error.
  admit :
      (entry : Entry) (msg : Message)
      → s.crashed ≡ false
      → s.proc.is_running ≡ true
      → Step s (record s { callers = selecting entry msg ∷ s.callers })
  -- Its message goes into the queue,
  sent :
      (entry : Entry) (pick : Bool) (msg : Message) (before behind : List Caller) (p : Processor)
      → s.crashed ≡ false
      → s.callers ≡ before ++ selecting entry msg ∷ behind
      → select_of entry pick msg s.proc ≡ returns (p, none)
      → Step s (record s {
        proc = p;
        callers = before ++ counting ∷ behind;
        accepted = msg ∷ s.accepted;
      })
  -- and is counted in a later step;
  tally :
      (before behind : List Caller)
      → s.crashed ≡ false
      → s.callers ≡ before ++ counting ∷ behind
      → Step s (record s { proc = count_enqueued s.proc; callers = before ++ behind })
  -- or the caller is told that the pool stops, or that the queue is full,
  refused :
      (entry : Entry) (pick : Bool) (msg : Message) (before behind : List Caller) (p : Processor)
      (e : String)
      → s.crashed ≡ false
      → s.callers ≡ before ++ selecting entry msg ∷ behind
      → select_of entry pick msg s.proc ≡ returns (p, some e)
      → Step s (record s { proc = p; callers = before ++ behind })
  -- or it panics, and the program with it.
  crash :
      (entry : Entry) (pick : Bool) (msg : Message) (before behind : List Caller)
      → s.crashed ≡ false
      → s.callers ≡ before ++ selecting entry msg ∷ behind
      → select_of entry pick msg s.proc ≡ panics
      → Step s (record s { crashed = true })
  -- A worker receives from the queue.
  take :
      (msg : Message) (rest : List Message) (before behind : List Phase)
      → s.crashed ≡ false
      → s.phases ≡ before ++ idle ∷ behind
      → s.proc.jobs.buffer ≡ msg ∷ rest
      → Step s (record s {
        proc = record (s.proc) { jobs = record (s.proc.jobs) { buffer = rest } };
        phases = before ++ busy msg ∷ behind;
        taken = msg ∷ s.taken;
      })
  -- It is through with the message; a nil message is skipped.
  finish :
      (msg : Message) (before behind : List Phase) (shared : Shared)
      (workers : List (Option Worker))
      → s.crashed ≡ false
      → s.phases ≡ before ++ busy msg ∷ behind
      → Step s (record s {
        proc = record (s.proc) { shared = shared; workers = workers };
        phases = before ++ idle ∷ behind;
      })
  -- It leaves its loop, at the closed `stopChan` or at the closed and empty queue.
  leave :
      (before behind : List Phase)
      → s.crashed ≡ false
      → s.phases ≡ before ++ idle ∷ behind
      → (s.proc.stop_closed ≡ true) ⊎ ((s.proc.jobs.closed ≡ true) × (s.proc.jobs.buffer ≡ []))
      → Step s (record s { phases = before ++ exited ∷ behind })
  -- `Stop` marks the pool as stopped and closes one channel after the other, or panics there.
  mark :
      s.crashed ≡ false
      → s.stopping ≡ untouched
      → s.proc.is_running ≡ true
      → Step s (record s { proc = stop_mark s.proc; stopping = marked })
  signal :
      (p : Processor)
      → s.crashed ≡ false
      → s.stopping ≡ marked
      → stop_signal s.proc ≡ returns p
      → Step s (record s { proc = p; stopping = signalled })
  signal_crash :
      s.crashed ≡ false
      → s.stopping ≡ marked
      → stop_signal s.proc ≡ panics
      → Step s (record s { crashed = true })
  close_jobs :
      (p : Processor)
      → s.crashed ≡ false
      → s.stopping ≡ signalled
      → stop_close s.proc ≡ returns p
      → Step s (record s { proc = p; stopping = done })
  close_crash :
      s.crashed ≡ false
      → s.stopping ≡ signalled
      → stop_close s.proc ≡ panics
      → Step s (record s { crashed = true })

pub data Reach (s : System) : System → Type 0 where
  here : Reach s s
  next : {t u : System} → Reach s t → Step t u → Reach s u

abbrev pub idlers : ℕ → List Phase
idlers zero = []
idlers (suc n) = idle ∷ idlers n
