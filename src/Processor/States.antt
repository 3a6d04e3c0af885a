-- ===== src/Processor/States.antt =====
-- What Invariant says of a state of the pool, and the steps of callers and workers that keep it.
use mathlib.Core.List.{reverse}
use mathlib.Core.Path.{ap₂}
use sentinelstream.Prelude.{
  fifo_send, ℕ, suc, ◌+◌, ◌<◌, none, inl, inr, ◌⊎◌, ◌%◌, ◌≤◌, ◌≡◌, refl, ap, ◌∙◌, Bool, true, false,
  Option, List, [], ◌∷◌, ◌++◌, length, u64_mod, Channel, arith, length-append,
}
use sentinelstream.Processor.Worker.{Worker, Shared}
use sentinelstream.Processor.Pool.{Processor}
use sentinelstream.Processor.System.{
  System, Message, Phase, Stopping, untouched, marked, signalled, done, Entry, tries, Caller,
  selecting, counting,
}
use sentinelstream.Processor.Effects.{Delivery, SameQueue, IsNilTry}

-- Which of the two channels `Stop` has closed.
abbrev pub Flags : Stopping → Bool → Bool → Type 0
Flags untouched stop jobs = (stop ≡ false) × (jobs ≡ false)
Flags marked stop jobs = (stop ≡ false) × (jobs ≡ false)
Flags signalled stop jobs = (stop ≡ true) × (jobs ≡ false)
Flags done stop jobs = (stop ≡ true) × (jobs ≡ true)

-- How many callers stand behind their send and have not counted it.
unfoldable pub uncounted : List Caller → ℕ
uncounted [] = 0
uncounted (selecting entry msg ∷ callers) = uncounted callers
uncounted (counting ∷ callers) = suc (uncounted callers)

pub uncounted-append : (xs ys : List Caller) → uncounted (xs ++ ys) ≡ uncounted xs + uncounted ys
unfolding uncounted
uncounted-append [] ys = omega arith
uncounted-append (selecting entry msg ∷ xs) ys = uncounted-append xs ys
uncounted-append (counting ∷ xs) ys = omega (arith, uncounted-append xs ys)

-- A caller of `TryEnqueue` stands at its select with nil, and the queue is full.
pub data HasNilTry (cap : ℕ) (s : System) : Type 0 where
  nil_try :
      (before behind : List Caller)
      → s.callers ≡ before ++ selecting tries none ∷ behind
      → length s.proc.jobs.buffer ≡ cap
      → HasNilTry cap s

pub record Inv (cap : ℕ) (s : System) : Type 0 where
  pub capacity : s.proc.jobs.capacity ≡ cap
  pub bounded : length s.proc.jobs.buffer ≤ cap
  pub fifo : reverse s.accepted ≡ reverse s.taken ++ s.proc.jobs.buffer
  pub counted :
      (s.proc.total_messages_enqueued + uncounted s.callers) % u64_mod ≡ length s.accepted % u64_mod
  pub counter : s.proc.total_messages_enqueued < u64_mod
  pub flags : Flags s.stopping s.proc.stop_closed s.proc.jobs.closed
  pub safe : s.crashed ≡ true → (s.stopping ≡ done) ⊎ HasNilTry cap s

Flags-closed : (x : Stopping) (a b : Bool) → Flags x a b → b ≡ true → x ≡ done
Flags-closed untouched a b f h = ground arith
Flags-closed marked a b f h = ground arith
Flags-closed signalled a b f h = ground arith
Flags-closed done a b f h = refl

pub Flags-stop : (x : Stopping) (a b : Bool) → Flags x a b → x ≡ marked → a ≡ true → ⊥
Flags-stop x a b f e h = ground (arith, rw e at f)

pub Flags-jobs : (x : Stopping) (a b : Bool) → Flags x a b → x ≡ signalled → b ≡ true → ⊥
Flags-jobs x a b f e h = ground (arith, rw e at f)

pub not-crashed : {b : Bool} {P : Type 0} → b ≡ false → b ≡ true → P
not-crashed f t = ground (arith)

module _ (cap : ℕ) (s : System) (v : Inv cap s) where
  pub sent-Inv :
      (entry : Entry) (msg : Message) (before behind : List Caller) (p : Processor)
      → s.crashed ≡ false
      → s.callers ≡ before ++ selecting entry msg ∷ behind
      → Delivery msg s.proc p
      → Inv cap (record s {
        proc = p;
        callers = before ++ counting ∷ behind;
        accepted = msg ∷ s.accepted;
      })
  unfolding uncounted
  sent-Inv entry msg before behind p c e d = record {
    capacity = d.capacity ∙ v.capacity;
    bounded = omega (
      arith,
      ap length d.buffer,
      length-append s.proc.jobs.buffer (msg ∷ []),
      d.room,
      v.capacity,
    );
    fifo = rw d.buffer (fifo_send msg s.accepted s.taken s.proc.jobs.buffer v.fifo);
    counted = omega (
      arith,
      d.enqueued,
      v.counted,
      ap uncounted e,
      uncounted-append before (selecting entry msg ∷ behind),
      uncounted-append before (counting ∷ behind),
    );
    counter = omega (arith, d.enqueued, v.counter);
    flags = rw (d.stop_closed, d.closed) v.flags;
    safe = λ h. not-crashed c h;
  }

  pub refused-Inv :
      (entry : Entry) (msg : Message) (before behind : List Caller) (p : Processor)
      → s.crashed ≡ false
      → s.callers ≡ before ++ selecting entry msg ∷ behind
      → SameQueue s.proc p
      → Inv cap (record s { proc = p; callers = before ++ behind })
  unfolding uncounted
  refused-Inv entry msg before behind p c e d = record {
    capacity = ap (λ (j : Channel Message). j.capacity) d.jobs ∙ v.capacity;
    bounded = rw d.jobs v.bounded;
    fifo = rw d.jobs v.fifo;
    counted = omega (
      arith,
      d.enqueued,
      v.counted,
      ap uncounted e,
      uncounted-append before (selecting entry msg ∷ behind),
      uncounted-append before behind,
    );
    counter = omega (arith, d.enqueued, v.counter);
    flags = rw (d.stop_closed, d.jobs) v.flags;
    safe = λ h. not-crashed c h;
  }

  -- Callers and workers come and go; the queue stays, and the messages not counted stay as many.
  pub unmoved-Inv :
      (phases : List Phase) (callers : List Caller) (shared : Shared)
      (workers : List (Option Worker))
      → s.crashed ≡ false
      → uncounted callers ≡ uncounted s.callers
      → Inv cap (record s {
        proc = record (s.proc) { shared = shared; workers = workers };
        phases = phases;
        callers = callers;
      })
  unmoved-Inv phases callers shared workers c e = record {
    capacity = v.capacity;
    bounded = v.bounded;
    fifo = v.fifo;
    counted = omega (arith, v.counted, e);
    counter = v.counter;
    flags = v.flags;
    safe = λ h. not-crashed c h;
  }

  -- A panic, for a reason.
  pub crashed-Inv : (s.stopping ≡ done) ⊎ HasNilTry cap s → Inv cap (record s { crashed = true })
  crashed-Inv (inl over) = record {
    capacity = v.capacity;
    bounded = v.bounded;
    fifo = v.fifo;
    counted = v.counted;
    counter = v.counter;
    flags = v.flags;
    safe = λ _. inl over;
  }
  crashed-Inv (inr (nil_try before behind e full)) = record {
    capacity = v.capacity;
    bounded = v.bounded;
    fifo = v.fifo;
    counted = v.counted;
    counter = v.counter;
    flags = v.flags;
    safe = λ _. inr (nil_try before behind e full);
  }

  pub crash_reason :
      (entry : Entry) (msg : Message) (before behind : List Caller)
      → s.callers ≡ before ++ selecting entry msg ∷ behind
      → (s.proc.jobs.closed ≡ true) ⊎ IsNilTry entry msg s.proc
      → (s.stopping ≡ done) ⊎ HasNilTry cap s
  crash_reason entry msg before behind e (inl shut) = inl (Flags-closed s.stopping _ _ v.flags shut)
  crash_reason entry msg before behind e (inr (tried, nothing, full)) = inr (
      nil_try before behind (e ∙ ap₂ (λ x m. before ++ selecting x m ∷ behind) tried nothing)
        (omega (arith, full, v.bounded, v.capacity)))
