-- ===== src/Simulator/Rounds.antt =====
-- The sensors take turns: in each round of the loop every sensor sends one message.
use mathlib.Core.List.{append_assoc, append-nil}
use mathlib.Core.Path.{ap₂}
use native.Mathlib.Nat.{mod-eq_of_lt, mod_self, zero-mod}
use sentinelstream.Prelude.{
  ℕ, zero, suc, ◌+◌, ◌*◌, ◌%◌, ◌≡◌, refl, sym, ap, ◌∙◌, arith, true, some, List, [], ◌∷◌, ◌++◌, map,
  length, length-append, get_elem?, set,
}
use sentinelstream.Clock.{Time}
use sentinelstream.Protocol.Types.{TelemetryMessage}
use sentinelstream.Simulator.Random.{Random, Marshaller}
use sentinelstream.Simulator.Generators.{Generator, next}
use sentinelstream.Simulator.Moving.{move, next-move}
use sentinelstream.Simulator.Running.{
  Simulator, Event, ticks, going, cancelled, crashed, Sending, then_run, turn, run,
}

-- The element behind the first ones.
get_elem?-append :
    {A : Type 0} (xs : List A) (x : A) (ys : List A) → get_elem? (xs ++ x ∷ ys) (length xs) ≡ some x
get_elem?-append [] x ys = refl
get_elem?-append (y ∷ xs) x ys = get_elem?-append xs x ys

set-append :
    {A : Type 0} (xs : List A) (x y : A) (ys : List A)
    → set (xs ++ x ∷ ys) (length xs) y ≡ xs ++ y ∷ ys
set-append [] x y ys = refl
set-append (z ∷ xs) x y ys = ap (◌∷◌ z) (set-append xs x y ys)

pub length-map : {A B : Type 0} (f : A → B) (xs : List A) → length (map f xs) ≡ length xs
length-map f [] = refl
length-map f (x ∷ xs) = ap suc (length-map f xs)

sums : (t n m k : ℕ) → m ≡ n → t + n + k * m ≡ t + suc k * n
sums t n m k h = rw h (grind arith)

then_run-prefixed :
    {S : Type 0} (msgs : List TelemetryMessage) (q : Sending S) (f : Simulator S → Sending S)
    → (msgs ++ (then_run q f).0, (then_run q f).1) ≡ then_run (msgs ++ q.0, q.1) f
then_run-prefixed msgs (more, going sim) f =
    ap (λ l. (l, (f sim).1)) (sym (append_assoc msgs more (f sim).0))
then_run-prefixed msgs (more, cancelled sim) f = refl
then_run-prefixed msgs (more, crashed) f = refl

then_run_regroup :
    {S : Type 0} (q : Sending S) (both first second : Simulator S → Sending S)
    → ((sim : Simulator S) → both sim ≡ then_run (first sim) second)
    → then_run q both ≡ then_run (then_run q first) second
then_run_regroup (msgs, going sim) both first second h =
    ap (λ q. (msgs ++ q.0, q.1)) (h sim) ∙ then_run-prefixed msgs (first sim) second
then_run_regroup (msgs, cancelled sim) both first second h = refl
then_run_regroup (msgs, crashed) both first second h = refl

-- So many ticks, all of which send.
abbrev pub sending : (ℕ → Time) → ℕ → List Event
sending now zero = []
sending now (suc n) = ticks (now 0) true ∷ sending (λ i. now (suc i)) n

-- The ticks of so many rounds of n turns.
abbrev pub all_ticks : ℕ → (ℕ → ℕ → Time) → ℕ → List Event
all_ticks zero now n = []
all_ticks (suc k) now n = sending (now 0) n ++ all_ticks k (λ r. now (suc r)) n

-- The sensors after so many rounds.
unfoldable pub move_all : {S : Type 0} → Random S → ℕ → List (Generator S) → List (Generator S)
move_all rand zero gs = gs
move_all rand (suc k) gs = move_all rand k (map (move rand) gs)

module _ {S : Type 0} (rand : Random S) (marshal : Marshaller) where
  -- A message of each generator, at the reading of the clock in its turn.
  abbrev pub one_each : (ℕ → Time) → List (Generator S) → List TelemetryMessage
  one_each now [] = []
  one_each now (g ∷ gs) = (next rand marshal (now 0) g).0 ∷ one_each (λ i. now (suc i)) gs

  -- A simulator that is at work.
  abbrev at : Simulator S → List (Generator S) → ℕ → ℕ → Simulator S
  at sim generators index sent = record sim {
    generators = generators;
    generator_index = index;
    total_sent = sent;
  }

  turn-at :
      (sim : Simulator S) (now : Time) (gs : List (Generator S)) (i n : ℕ) (g : Generator S)
      → get_elem? gs i ≡ some g
      → turn rand marshal (ticks now true) (at sim gs i n) ≡ (
        (next rand marshal now g).0 ∷ [],
        going (at sim (set gs i (move rand g)) ((i + 1) % length gs) (n + 1)),
      )
  unfolding turn
  turn-at sim now gs i n g h = rw h (
      ap
        (λ g'. (
          (next rand marshal now g).0 ∷ [],
          going (at sim (set gs i g') ((i + 1) % length gs) (n + 1)),
        ))
        (ap (λ (q : TelemetryMessage × Generator S). q.1) (next-move rand marshal now g)))

  -- The simulator before the turns of the sensors `waiting`, the others having had theirs.
  abbrev within : Simulator S → List (Generator S) → List (Generator S) → ℕ → Simulator S
  within sim moved waiting n =
      at sim (moved ++ waiting) (length moved % (length moved + length waiting)) n

  -- The place behind the one that has moved.
  abbrev next_place : List (Generator S) → Generator S → List (Generator S) → ℕ
  next_place moved g' waiting =
      length (moved ++ g' ∷ []) % (length (moved ++ g' ∷ []) + length waiting)

  turn-within :
      (sim : Simulator S) (now : Time) (moved : List (Generator S)) (g : Generator S)
      (waiting : List (Generator S)) (n : ℕ)
      → turn rand marshal (ticks now true) (within sim moved (g ∷ waiting) n) ≡ (
        (next rand marshal now g).0 ∷ [],
        going (within sim (moved ++ move rand g ∷ []) waiting (n + 1)),
      )
  turn-within sim now moved g waiting n =
      let m = length moved in
      let here : m % (m + suc (length waiting)) ≡ m = mod-eq_of_lt (omega arith) in
      let there : (m + 1) % length (moved ++ g ∷ waiting) ≡ next_place moved (move rand g) waiting =
        ap₂ (λ i k. i % k) (sym (length-append moved (move rand g ∷ [])))
          (omega
            (arith, length-append moved (g ∷ waiting), length-append moved (move rand g ∷ []))) in
      ap (λ i. turn rand marshal (ticks now true) (at sim (moved ++ g ∷ waiting) i n)) here
      ∙ turn-at sim now (moved ++ g ∷ waiting) m n g (get_elem?-append moved g waiting)
      ∙ ap₂
          (λ (gs : List (Generator S)) i.
            ((next rand marshal now g).0 ∷ [], going (at sim gs i (n + 1))))
          (set-append moved g (move rand g) waiting
            ∙ sym (append_assoc moved (move rand g ∷ []) waiting))
          there

  run-within :
      (sim : Simulator S) (now : ℕ → Time) (moved waiting : List (Generator S)) (n : ℕ)
      → run rand marshal (sending now (length waiting)) (within sim moved waiting n) ≡ (
        one_each now waiting,
        going (within sim (moved ++ map (move rand) waiting) [] (n + length waiting)),
      )
  unfolding run
  run-within sim now moved [] n =
      ap₂ (λ (gs : List (Generator S)) m. ([], going (within sim gs [] m))) (sym (append-nil moved))
        (omega arith)
  run-within sim now moved (g ∷ waiting) n =
      let rest = run rand marshal (sending (λ i. now (suc i)) (length waiting)) in
      ap (λ r. then_run r rest) (turn-within sim (now 0) moved g waiting n)
      ∙ ap (λ q. ((next rand marshal (now 0) g).0 ∷ q.0, q.1))
          (run-within sim (λ i. now (suc i)) (moved ++ move rand g ∷ []) waiting (n + 1))
      ∙ ap₂
          (λ (gs : List (Generator S)) k. (one_each now (g ∷ waiting), going (within sim gs [] k)))
          (append_assoc moved (move rand g ∷ []) (map (move rand) waiting)) (omega arith)

  -- In a round from the first sensor on, with a tick for each sensor, each sends its next message, in
  -- their order, and the first one is the next to send again.
  pub run-round :
      (sim : Simulator S) (now : ℕ → Time)
      → sim.generator_index ≡ 0
      → run rand marshal (sending now (length sim.generators)) sim ≡ (
        one_each now sim.generators,
        going (record sim {
          generators = map (move rand) sim.generators;
          total_sent = sim.total_sent + length sim.generators;
        }),
      )
  run-round sim now h =
      let gs = sim.generators in
      let gs' = map (move rand) gs in
      let total = sim.total_sent + length gs in
      let start : sim.generator_index ≡ 0 % (0 + length gs) = h ∙ sym (zero-mod (0 + length gs)) in
      let around_again : length gs' % (length gs' + 0) ≡ sim.generator_index =
        ap (λ k. length gs' % k) (omega arith) ∙ mod_self (length gs') ∙ sym h in
      ap (λ i. run rand marshal (sending now (length gs)) (at sim gs i sim.total_sent)) start
      ∙ run-within sim now [] gs sim.total_sent
      ∙ ap₂ (λ (l : List (Generator S)) i. (one_each now gs, going (at sim l i total)))
          (append-nil gs') around_again

  -- The messages of so many rounds; the clock is read in round `r` at turn `i`.
  unfoldable pub all_rounds : ℕ → (ℕ → ℕ → Time) → List (Generator S) → List TelemetryMessage
  all_rounds zero now gs = []
  all_rounds (suc k) now gs =
      one_each (now 0) gs ++ all_rounds k (λ r. now (suc r)) (map (move rand) gs)

  pub run-append :
      (xs ys : List Event) (sim : Simulator S)
      → run rand marshal (xs ++ ys) sim ≡ then_run (run rand marshal xs sim) (run rand marshal ys)
  unfolding run
  run-append [] ys sim = refl
  run-append (x ∷ xs) ys sim =
      then_run_regroup (turn rand marshal x sim) (run rand marshal (xs ++ ys)) (run rand marshal xs)
        (run rand marshal ys) (run-append xs ys)

  -- In any number of rounds that start from the first sensor, with a tick for each sensor in each, all
  -- of which send, the messages are those of the sensors in turn, one of each in a round, and every
  -- sensor has moved on once in each.
  pub run-rounds :
      (k : ℕ) (now : ℕ → ℕ → Time) (sim : Simulator S)
      → sim.generator_index ≡ 0
      → run rand marshal (all_ticks k now (length sim.generators)) sim ≡ (
        all_rounds k now sim.generators,
        going (record sim {
          generators = move_all rand k sim.generators;
          total_sent = sim.total_sent + k * length sim.generators;
        }),
      )
  unfolding all_rounds move_all run
  run-rounds zero now sim h = ap (λ t. ([], going (record sim { total_sent = t }))) (omega arith)
  run-rounds (suc k) now sim h =
      let n = length sim.generators in
      let sim' = record sim {
        generators = map (move rand) sim.generators;
        total_sent = sim.total_sent + n;
      } in
      let same : length sim'.generators ≡ n = length-map (move rand) sim.generators in
      let rest = all_ticks k (λ r. now (suc r)) n in
      run-append (sending (now 0) n) rest sim
      ∙ ap (λ q. then_run q (run rand marshal rest)) (run-round sim (now 0) h)
      ∙ ap (λ q. (one_each (now 0) sim.generators ++ q.0, q.1))
          (ap (λ m. run rand marshal (all_ticks k (λ r. now (suc r)) m) sim') (sym same)
            ∙ run-rounds k (λ r. now (suc r)) sim' h
            ∙ ap
                (λ t. (
                  all_rounds k (λ r. now (suc r)) (map (move rand) sim.generators),
                  going (record sim {
                    generators = move_all rand k (map (move rand) sim.generators);
                    total_sent = t;
                  }),
                ))
                (sums sim.total_sent n (length sim'.generators) k same))
