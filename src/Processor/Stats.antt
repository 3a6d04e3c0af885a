-- ===== src/Processor/Stats.antt =====
-- `Stats` and `WaitForQuiescence`.
use sentinelstream.Prelude.{
  ℕ, zero, suc, Option, ◌+◌, ◌%◌, ◌<◌, ◌≡◌, ◌↔◌, ◌≢◌, refl, ap, ◌∙◌, ◌++◌, true, false, none, some,
  List, [], ◌∷◌, map, length, u64_mod, add64, arith, replicate, ℤ, Bool-cases, inl, inr, ◌==◌,
}
use sentinelstream.Clock.{Time, is_after}
use sentinelstream.State.Store.{StateStore}
use sentinelstream.Metrics.Latency.{Snapshot, snapshot}
use sentinelstream.Metrics.Percentiles.{snapshot_total}
use sentinelstream.Processor.Worker.{Worker, new_worker}
use sentinelstream.Processor.Pool.{
  ProcessorConfig, Processor, ProcessorStats, Totals, no_totals, add_up, stats, report, or_default,
  start_workers, new_processor, Reading, wait_for_quiescence,
}

-- The sum of a counter over the workers.
unfoldable pub sum_of : (Worker → ℕ) → List Worker → ℕ
sum_of f [] = 0
sum_of f (w ∷ ws) = f w + sum_of f ws

-- New workers have counted nothing.
pub new_workers :
    (i : ℕ) (places : List (Option Worker))
    → (ws : List Worker) × (start_workers i places ≡ map some ws)
      × ((f : Worker → ℕ) → ((id : ℕ) → f (new_worker id) ≡ 0) → sum_of f ws ≡ 0)
unfolding start_workers sum_of
new_workers i [] = ([], refl, λ f z. refl)
new_workers i (x ∷ places) =
    let (ws, e, none_counted) = new_workers (suc i) places in
    (
      new_worker i ∷ ws,
      ap (◌∷◌ (some (new_worker i))) e,
      λ f z. omega (arith, z i, none_counted f z),
    )

-- The totals, each the sum of the workers' counters modulo 2^64.
pub record IsSum (t : Totals) (ws : List Worker) (r : Totals) : Type 0 where
  pub processed :
      r.processed % u64_mod ≡ (t.processed + sum_of (λ w. w.messages_processed) ws) % u64_mod
  pub errors : r.errors % u64_mod ≡ (t.errors + sum_of (λ w. w.errors) ws) % u64_mod
  pub anomalies : r.anomalies % u64_mod ≡ (t.anomalies + sum_of (λ w. w.anomalies) ws) % u64_mod
  pub dropped : r.dropped % u64_mod ≡ (t.dropped + sum_of (λ w. w.dropped) ws) % u64_mod
  pub duplicates : r.duplicates % u64_mod ≡ (t.duplicates + sum_of (λ w. w.duplicates) ws) % u64_mod
  pub out_of_order :
      r.out_of_order % u64_mod ≡ (t.out_of_order + sum_of (λ w. w.out_of_order) ws) % u64_mod

add_up-IsSum :
    (t : Totals) (ws : List Worker)
    → (r : Totals) × (add_up t (map some ws) ≡ some r) × IsSum t ws r
unfolding add_up sum_of
add_up-IsSum t [] = (t, refl, omega arith)
add_up-IsSum t (w ∷ ws) =
    let u : Totals = record {
      processed = add64 t.processed w.messages_processed;
      errors = add64 t.errors w.errors;
      anomalies = add64 t.anomalies w.anomalies;
      dropped = add64 t.dropped w.dropped;
      duplicates = add64 t.duplicates w.duplicates;
      out_of_order = add64 t.out_of_order w.out_of_order;
    } in
    let (r, e, s) = add_up-IsSum u ws in
    (
      r,
      e,
      record {
        processed = omega (arith, s.processed);
        errors = omega (arith, s.errors);
        anomalies = omega (arith, s.anomalies);
        dropped = omega (arith, s.dropped);
        duplicates = omega (arith, s.duplicates);
        out_of_order = omega (arith, s.out_of_order);
      },
    )

stats-report :
    (p : Processor) (t : Totals) (x y : Snapshot)
    → add_up no_totals p.workers ≡ some t
    → snapshot p.shared.processing_latency ≡ some x
    → snapshot p.shared.end_to_end_latency ≡ some y
    → stats p ≡ some (report p t x y)
unfolding stats
stats-report p t x y e a b = rw (e, a, b)

-- Once the pool has its workers, `Stats` does not panic; the totals that it reports are the sums of
-- the workers' counters modulo 2^64, and its queue depth is the number of messages in the queue.
pub stats-IsSum :
    (p : Processor) (ws : List Worker)
    → p.workers ≡ map some ws
    → (r : ProcessorStats) × (stats p ≡ some r)
      × IsSum no_totals ws r.totals
      × (r.queue_depth ≡ length p.jobs.buffer)
stats-IsSum p ws e =
    let (x, a) = snapshot_total p.shared.processing_latency in
    let (y, b) = snapshot_total p.shared.end_to_end_latency in
    let (t, added, s) = add_up-IsSum no_totals ws in
    (report p t x y, stats-report p t x y (ap (add_up no_totals) e ∙ added) a b, s, refl)

add_up_nil : (n : ℕ) → 0 < n → add_up no_totals (replicate n none) ≡ none
unfolding add_up
add_up_nil zero h = elim h [ ]
add_up_nil (suc n) h = refl

or_default_pos : (n : ℤ) (d : ℕ) → 0 < d → 0 < or_default n d
or_default_pos n d h = ground arith

-- `Stats` on a pool that was never started panics at its first worker, which is nil.
pub stats_unstarted :
    (config : ProcessorConfig) (store : StateStore) → stats (new_processor config store) ≡ none
unfolding stats new_processor
stats_unstarted config store = rw (
    add_up_nil (or_default config.num_workers 4)
      (or_default_pos config.num_workers 4 (omega arith)))

-- Rounds that neither end the wait with an error nor find the queue empty.
abbrev pub Waits : Time → List Reading → Type 0
Waits deadline [] = Unit
Waits deadline (r ∷ rs) =
    (r.running ≡ true) × (0 < r.depth) × (is_after r.at deadline ≡ false) × Waits deadline rs

-- Such rounds, and then one that finds the queue of a running pool empty.
abbrev pub FindsEmpty : Time → List Reading → Type 0
FindsEmpty deadline rs =
    (before : List Reading) × (r : Reading) × (behind : List Reading) × (rs ≡ before ++ r ∷ behind)
    × Waits deadline before
    × (r.running ≡ true)
    × (r.depth ≡ 0)

nil-FindsEmpty :
    (deadline : Time) (rs : List Reading)
    → wait_for_quiescence deadline rs ≡ some none
    → FindsEmpty deadline rs
unfolding wait_for_quiescence
nil-FindsEmpty deadline [] h = ground arith
nil-FindsEmpty deadline (r ∷ rs) h = elim (Bool-cases (r.depth == 0)) [
  | inl empty ↦ ([], r, rs, refl, tt, ground arith, ground arith)
  | inr more ↦
      let rest : wait_for_quiescence deadline rs ≡ some none = ground arith in
      let (before, x, behind, e, w, runs, depth) = nil-FindsEmpty deadline rs rest in
      (
        r ∷ before,
        x,
        behind,
        ap (◌∷◌ r) e,
        (ground arith, ground arith, ground arith, w),
        runs,
        depth,
      )
]

Waits-nil :
    (deadline : Time) (before : List Reading) (r : Reading) (behind : List Reading)
    → Waits deadline before
    → r.running ≡ true
    → r.depth ≡ 0
    → wait_for_quiescence deadline (before ++ r ∷ behind) ≡ some none
unfolding wait_for_quiescence
Waits-nil deadline [] r behind w runs empty = ground arith
Waits-nil deadline (x ∷ before) r behind (busy, more, early, w) runs empty =
    ground (arith, Waits-nil deadline before r behind w runs empty)

-- `WaitForQuiescence` returns nil exactly if it finds the queue of a running pool empty, after
-- rounds that found it running, not empty, and the deadline not passed.
pub wait_for_quiescence_nil :
    (deadline : Time) (rs : List Reading)
    → (wait_for_quiescence deadline rs ≡ some none) ↔ FindsEmpty deadline rs
wait_for_quiescence_nil deadline rs = (
  nil-FindsEmpty deadline rs,
  λ f.
      let (before, r, behind, e, w, runs, empty) = f in
      ap (wait_for_quiescence deadline) e ∙ Waits-nil deadline before r behind w runs empty,
)

-- `WaitForQuiescence` does not wait for ever: it has returned by the first reading past the deadline.
pub wait_for_quiescence_ends :
    (deadline : Time) (rs : List Reading) (r : Reading) (behind : List Reading)
    → is_after r.at deadline ≡ true
    → wait_for_quiescence deadline (rs ++ r ∷ behind) ≢ none
unfolding wait_for_quiescence
wait_for_quiescence_ends deadline [] r behind h = ground arith
wait_for_quiescence_ends deadline (x ∷ rs) r behind h =
    ground (arith, wait_for_quiescence_ends deadline rs r behind h)
