-- ===== src/Processor/Invariant.antt =====
-- What holds of the pool in every state that it reaches.
use mathlib.Core.List.{reverse}
use sentinelstream.Prelude.{
  fifo_take, ℕ, refl, ap, ◌∙◌, false, [], ◌∷◌, ◌++◌, length, Channel, arith,
}
use sentinelstream.State.Store.{StateStore}
use sentinelstream.Processor.Pool.{ProcessorConfig, or_default, new_processor, start}
use sentinelstream.Processor.System.{
  System, Message, idle, exited, untouched, marked, signalled, idlers, Step, Reach, admit, sent,
  tally, refused, crash, take, finish, leave, mark, signal, signal_crash, close_jobs, close_crash,
  here, next, selecting, counting,
}
use sentinelstream.Processor.Effects.{
  select-Delivery, select-SameQueue, select_panics, stop_signal-Signalled, stop_close-Closed,
  stop_signal_panics, stop_close_panics,
}
use sentinelstream.Processor.States.{
  Flags, uncounted, uncounted-append, Inv, Flags-stop, Flags-jobs, not-crashed, sent-Inv,
  refused-Inv, unmoved-Inv, crashed-Inv, crash_reason,
}

Step-Inv : (cap : ℕ) {s t : System} → Step s t → Inv cap s → Inv cap t
Step-Inv cap {s} (admit entry msg c r) v =
    unmoved-Inv cap s v s.phases (selecting entry msg ∷ s.callers) s.proc.shared s.proc.workers c
      (unfold uncounted in refl)
Step-Inv cap {s} (sent entry pick msg before behind p c e d) v =
    sent-Inv cap s v entry msg before behind p c e (select-Delivery entry pick msg s.proc p d)
Step-Inv cap {s} (tally before behind c e) v = record {
  capacity = v.capacity;
  bounded = v.bounded;
  fifo = v.fifo;
  counted =
      unfold uncounted in
      omega (
        arith,
        v.counted,
        ap uncounted e,
        uncounted-append before (counting ∷ behind),
        uncounted-append before behind,
      );
  counter = omega arith;
  flags = v.flags;
  safe = λ h. not-crashed c h;
}
Step-Inv cap {s} (refused entry pick msg before behind p x c e d) v =
    refused-Inv cap s v entry msg before behind p c e (select-SameQueue entry pick msg s.proc p x d)
Step-Inv cap {s} (crash entry pick msg before behind c e d) v =
    crashed-Inv cap s v
      (crash_reason cap s v entry msg before behind e (select_panics entry pick msg s.proc d))
Step-Inv cap {s} (take msg rest before behind c e d) v = record {
  capacity = v.capacity;
  bounded = omega (arith, v.bounded, ap length d);
  fifo = fifo_take msg s.accepted s.taken rest (v.fifo ∙ ap (λ l. reverse s.taken ++ l) d);
  counted = v.counted;
  counter = v.counter;
  flags = v.flags;
  safe = λ h. not-crashed c h;
}
Step-Inv cap {s} (finish msg before behind shared workers c e) v =
    unmoved-Inv cap s v (before ++ idle ∷ behind) s.callers shared workers c refl
Step-Inv cap {s} (leave before behind c e d) v =
    unmoved-Inv cap s v (before ++ exited ∷ behind) s.callers s.proc.shared s.proc.workers c refl
Step-Inv cap {s} (mark c e r) v = record {
  capacity = v.capacity;
  bounded = v.bounded;
  fifo = v.fifo;
  counted = v.counted;
  counter = v.counter;
  flags = rw e at v.flags;
  safe = λ h. not-crashed c h;
}
Step-Inv cap {s} (signal p c e d) v =
    let x = stop_signal-Signalled s.proc p d in
    let f : Flags marked s.proc.stop_closed s.proc.jobs.closed = rw e at v.flags in
    record {
      capacity = ap (λ (j : Channel Message). j.capacity) x.jobs ∙ v.capacity;
      bounded = rw x.jobs v.bounded;
      fifo = rw x.jobs v.fifo;
      counted = omega (arith, x.enqueued, v.counted);
      counter = omega (arith, x.enqueued, v.counter);
      flags = (x.stop_closed, ap (λ (j : Channel Message). j.closed) x.jobs ∙ f.1);
      safe = λ h. not-crashed c h;
    }
Step-Inv cap {s} (signal_crash c e d) v =
    absurd (Flags-stop s.stopping _ _ v.flags e (stop_signal_panics s.proc d))
Step-Inv cap {s} (close_jobs p c e d) v =
    let x = stop_close-Closed s.proc p d in
    let f : Flags signalled s.proc.stop_closed s.proc.jobs.closed = rw e at v.flags in
    record {
      capacity = x.capacity ∙ v.capacity;
      bounded = rw x.buffer v.bounded;
      fifo = rw x.buffer v.fifo;
      counted = omega (arith, x.enqueued, v.counted);
      counter = omega (arith, x.enqueued, v.counter);
      flags = (x.stop_closed ∙ f.0, x.closed);
      safe = λ h. not-crashed c h;
    }
Step-Inv cap {s} (close_crash c e d) v =
    absurd (Flags-jobs s.stopping _ _ v.flags e (stop_close_panics s.proc d))

-- The state after `NewProcessor` and `Start`.
unfoldable pub started : ProcessorConfig → StateStore → System
started config store = record {
  proc = (start (new_processor config store)).0;
  phases = idlers (or_default config.num_workers 4);
  callers = [];
  stopping = untouched;
  crashed = false;
  accepted = [];
  taken = [];
}

Reach-Inv : (cap : ℕ) {s t : System} → Inv cap s → Reach s t → Inv cap t
Reach-Inv cap v here = v
Reach-Inv cap v (next r st) = Step-Inv cap st (Reach-Inv cap v r)

started-Inv :
    (config : ProcessorConfig) (store : StateStore)
    → Inv (or_default config.queue_size 1000) (started config store)
unfolding started start new_processor uncounted
started-Inv config store = record {
  capacity = refl;
  bounded = omega arith;
  fifo = refl;
  counted = refl;
  counter = omega arith;
  flags = (refl, refl);
  safe = λ h. ground arith;
}

-- In every state that a started pool reaches, the queue holds at most as many messages as it was
-- made for (1000, if the size given is not positive); the messages accepted are, in their order,
-- those that workers received and those in the queue; the count of enqueued messages, together with
-- the callers that have sent theirs and not counted it, is theirs modulo 2^64; `Stop` does not panic;
-- and a caller has panicked only if `Stop` has closed the queue, or if it called `TryEnqueue` with nil
-- and found the queue full.
pub pool_invariant :
    (config : ProcessorConfig) (store : StateStore) {s : System}
    → Reach (started config store) s
    → Inv (or_default config.queue_size 1000) s
pool_invariant config store r = Reach-Inv _ (started-Inv config store) r
