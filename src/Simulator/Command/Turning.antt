-- ===== src/Simulator/Command/Turning.antt =====
-- The index of the next sensor while the simulator runs.
use native.Mathlib.Nat.{mod-lt}
use sentinelstream.Prelude.{
  ◌+◌, ◌%◌, ◌<◌, ◌≡◌, sym, ap, subst, ◌∙◌, true, false, List, [], ◌∷◌, ◌++◌, length, length-set,
  get_elem?_total, arith,
}
use mathlib.Core.List.{reverse, reverse-cons}
use sentinelstream.Protocol.Types.{TelemetryMessage}
use sentinelstream.Simulator.Random.{Random, Marshaller}
use sentinelstream.Simulator.Generators.{next}
use sentinelstream.Simulator.Running.{
  Simulator, Event, ticks, done, Running, going, cancelled, crashed, then_run, turn, run,
}
use sentinelstream.Simulator.Rounds.{run-append}

abbrev pub InRange : {S : Type 0} → Simulator S → Type 0
InRange sim = sim.generator_index < length sim.generators

-- The same at a place of the loop.
abbrev pub Fine : {S : Type 0} → Running S → Type 0
Fine (going sim) = InRange sim
Fine (cancelled sim) = Unit
Fine crashed = ⊥

module _ {S : Type 0} (rand : Random S) (marshal : Marshaller) where
  turn-Fine : (e : Event) (sim : Simulator S) → InRange sim → Fine (turn rand marshal e sim).1
  unfolding turn
  turn-Fine done sim h = tt
  turn-Fine (ticks now true) sim h =
      let (g, e) = get_elem?_total sim.generators sim.generator_index h in
      let g' = (next rand marshal now g).1 in
      let small : (sim.generator_index + 1) % length sim.generators < length sim.generators =
        mod-lt (sim.generator_index + 1) (omega arith) in
      rw (e, Fine) (omega (arith, length-set sim.generators sim.generator_index g', small))
  turn-Fine (ticks now false) sim h =
      let (g, e) = get_elem?_total sim.generators sim.generator_index h in rw (e, Fine) tt

  pub turn-InRange :
      (e : Event) (sim sim' : Simulator S) (msgs : List TelemetryMessage)
      → InRange sim
      → turn rand marshal e sim ≡ (msgs, going sim')
      → InRange sim'
  turn-InRange e sim sim' msgs h q = subst (λ r. Fine r.1) q (turn-Fine e sim h)

  pub turn-ne-crashed :
      (e : Event) (sim : Simulator S) (msgs : List TelemetryMessage)
      → InRange sim
      → turn rand marshal e sim ≡ (msgs, crashed)
      → ⊥
  turn-ne-crashed e sim msgs h q = subst (λ r. Fine r.1) q (turn-Fine e sim h)

  -- One more turn that sends a message.
  pub run-concat :
      (events : List Event) (sim₀ sim sim' : Simulator S) (made : List TelemetryMessage) (e : Event)
      (msg : TelemetryMessage)
      → run rand marshal events sim₀ ≡ (reverse made, going sim)
      → turn rand marshal e sim ≡ (msg ∷ [], going sim')
      → run rand marshal (events ++ e ∷ []) sim₀ ≡ (reverse (msg ∷ made), going sim')
  unfolding run
  run-concat events sim₀ sim sim' made e msg h q =
      run-append rand marshal events (e ∷ []) sim₀
      ∙ ap (λ r. then_run r (run rand marshal (e ∷ []))) h
      ∙ ap (λ r. then_run (reverse made, going sim) (λ s. then_run r (run rand marshal []))) q
      ∙ ap (λ l. (l, going sim')) (sym (reverse-cons msg made))
