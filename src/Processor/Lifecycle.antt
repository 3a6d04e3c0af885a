-- ===== src/Processor/Lifecycle.antt =====
-- Starting, stopping and asking the pool: what its methods promise and where they panic.
use mathlib.Core.List.{append_assoc}
use sentinelstream.Prelude.{
  ℕ, zero, suc, ◌<◌, ◌≡◌, refl, sym, subst, Bool, true, false, none, some, List, [], ◌∷◌, ◌++◌,
  returns, panics, arith, inl, close, send,
}
use sentinelstream.State.Store.{StateStore}
use sentinelstream.Processor.Pool.{
  ProcessorConfig, Processor, or_default, new_processor, start, start_workers, stop, stop_mark,
  count_enqueued, enqueue, try_enqueue,
}
use sentinelstream.Processor.System.{
  System, Message, Phase, exited, untouched, done, idlers, Reach, admit, sent, tally, crash, Caller,
  selecting, enqueues, leave, mark, signal, close_jobs, here, next,
}
use sentinelstream.Processor.Invariant.{started}

-- A pool that runs and was not stopped before.
pub record IsLive (p : Processor) : Type 0 where
  pub running : p.is_running ≡ true
  pub open_stop : p.stop_closed ≡ false
  pub open_jobs : p.jobs.closed ≡ false

-- On a live pool a second `Start` is an error and changes nothing; `Stop` returns no error, and a
-- second `Stop` does nothing; after it `Enqueue` and `TryEnqueue` return an error.
pub stop_start :
    (p : Processor) (msg : Message) (pick : Bool)
    → IsLive p
    → (q : Processor) × (start p ≡ (p, some "processor already running"))
      × (stop p ≡ returns (q, none))
      × (q.is_running ≡ false)
      × (stop q ≡ returns (q, none))
      × (enqueue pick msg q ≡ returns (q, some "processor not running"))
      × (try_enqueue msg q ≡ returns (q, some "processor not running"))
unfolding start stop enqueue try_enqueue
stop_start p msg pick v = (
  record p { is_running = false; stop_closed = true; jobs = record (p.jobs) { closed = true } },
  ground arith,
  ground arith,
  refl,
  refl,
  refl,
  refl,
)

-- A live pool that is stopped starts again without an error, but it is of no use: another `Stop`
-- panics, `TryEnqueue` panics, and `Enqueue` panics or returns an error.
pub restart_panics :
    (p : Processor) (msg : Message)
    → IsLive p
    → (q : Processor) × (r : Processor) × (stop p ≡ returns (q, none))
      × (start q ≡ (r, none))
      × (r.is_running ≡ true)
      × (stop r ≡ panics)
      × (try_enqueue msg r ≡ panics)
      × (enqueue true msg r ≡ panics)
      × (enqueue false msg r ≡ returns (r, some "processor stopping"))
unfolding start stop enqueue try_enqueue
restart_panics p msg v =
    let q = record p {
      is_running = false;
      stop_closed = true;
      jobs = record (p.jobs) { closed = true };
    } in
    (
      q,
      record q { is_running = true; workers = start_workers 0 p.workers },
      ground arith,
      refl,
      refl,
      refl,
      refl,
      refl,
      refl,
    )

-- The state in which `Stop` has run up to its wait, as the steps leave it.
abbrev stopped : System → System
stopped s = record s {
  proc = record (s.proc) {
    is_running = false;
    stop_closed = true;
    jobs = record (s.proc.jobs) { closed = true };
  };
  stopping = done;
}

stopped-Reach :
    (s : System) → s.crashed ≡ false → s.stopping ≡ untouched → IsLive s.proc → Reach s (stopped s)
stopped-Reach s c e v =
    let p = record (stop_mark s.proc) { stop_closed = true } in
    let q = record p { jobs = record (s.proc.jobs) { closed = true } } in
    next (next (next here (mark c e v.running)) (signal p c refl (rw v.open_stop)))
      (close_jobs q c refl (unfold close in rw v.open_jobs))

-- From any state of a live pool in which a caller of `Enqueue` stands between its test and its
-- `select`, one `Stop` leads to a state in which that caller sends on the closed queue and panics.
pub enqueue_may_panic :
    (s : System) (msg : Message) (behind : List Caller)
    → s.crashed ≡ false
    → s.stopping ≡ untouched
    → IsLive s.proc
    → s.callers ≡ selecting enqueues msg ∷ behind
    → (t : System) × Reach s t × (t.crashed ≡ true)
enqueue_may_panic s msg behind c e v callers = (
  record (stopped s) { crashed = true },
  next (stopped-Reach s c e v) (crash enqueues true msg [] behind c callers (unfold send in refl)),
  refl,
)

Reach-trans : {s t u : System} → Reach s t → Reach t u → Reach s u
Reach-trans r here = r
Reach-trans r (next q st) = next (Reach-trans r q) st

abbrev pub leavers : ℕ → List Phase
leavers zero = []
leavers (suc n) = exited ∷ leavers n

-- The rest of the workers leave their loops, one after another.
leave_all :
    (s : System) (r : System) (before : List Phase) (n : ℕ)
    → Reach r (record s { phases = before ++ idlers n })
    → s.crashed ≡ false
    → s.proc.stop_closed ≡ true
    → Reach r (record s { phases = before ++ leavers n })
leave_all s r before zero path c closed = path
leave_all s r before (suc n) path c closed =
    subst (λ l. Reach r (record s { phases = l })) (append_assoc before (exited ∷ []) (leavers n))
      (leave_all s r (before ++ exited ∷ []) n
        (subst (λ l. Reach r (record s { phases = l }))
          (sym (append_assoc before (exited ∷ []) (idlers n)))
          (next path (leave before (idlers n) c refl (inl closed))))
        c closed)

-- `Stop` need not drain the queue: for every pool and every message there is a run in which the
-- message is accepted, `Stop` comes through and all workers have left, and the message is still
-- in the queue and was received by no worker.
pub stop_may_strand :
    (config : ProcessorConfig) (store : StateStore) (msg : Message)
    → (t : System) × Reach (started config store) t
      × (t.crashed ≡ false)
      × (t.stopping ≡ done)
      × (t.phases ≡ leavers (or_default config.num_workers 4))
      × (t.accepted ≡ msg ∷ [])
      × (t.taken ≡ [])
      × (t.proc.jobs.buffer ≡ msg ∷ [])
unfolding started start new_processor
stop_may_strand config store msg =
    let s = started config store in
    let cap_pos : 0 < or_default config.queue_size 1000 = ground arith in
    let q = record (s.proc) { jobs = record (s.proc.jobs) { buffer = msg ∷ [] } } in
    let p = count_enqueued q in
    let u = record s { proc = p; accepted = msg ∷ [] } in
    let enters : Reach s u =
      next
        (next (next here (admit enqueues msg refl refl))
          (sent enqueues true msg [] [] q refl refl (unfold send in ground (arith, cap_pos))))
        (tally [] [] refl refl) in
    (
      record (stopped u) { phases = leavers (or_default config.num_workers 4) },
      leave_all (stopped u) s [] (or_default config.num_workers 4)
          (Reach-trans enters (
            stopped-Reach u refl refl
              (record { running = refl; open_stop = refl; open_jobs = refl })))
          refl refl,
      refl,
      refl,
      refl,
      refl,
      refl,
      refl,
    )
