-- ===== src/Simulator/Command/Invariant.antt =====
-- What holds of the command in every state that it reaches.
use mathlib.Core.List.{reverse}
use mathlib.Core.Path.{ap₂}
use sentinelstream.Prelude.{
  fifo_send, fifo_take, ℕ, ◌≡◌, refl, sym, ap, subst, ◌∙◌, Bool, true, [], ◌∷◌, ◌++◌, map, String,
  Result, ok, err, inl, inr, Bool-cases, str_eq, length, length-append, arith, send-panics,
  send-returns, close-panics, close-returns,
}
use sentinelstream.Clock.{Time, elapsed}
use sentinelstream.Simulator.Random.{Random, Marshaller}
use sentinelstream.Simulator.Running.{Simulator, ticks, going, launch, new_simulator, run}
use sentinelstream.Simulator.Sender.{Sender, udp_sender, tcp_sender, DialError, new_sender}
use sentinelstream.Simulator.Command.{
  begin, begin_with, wire_to, Wire, Flags, Command, launching, running, ended, leaving, returned,
  config_of, open_wire, start_command, farewell, simulator_error, send_over,
}
use sentinelstream.Simulator.Command.Steps.{
  has_ended, IsFatal, Step, Reach, here, next, launch_well, launch_empty, launch_fatal, produce,
  produce_crash, produce_closed, stop, close_closed, receive, finish, interrupt, leave,
}
use sentinelstream.Simulator.Command.Sent.{
  loaded, send_over-loaded, summaries, summaries-append, pass_on_counts, pass_on-IsPaced,
}
use sentinelstream.Simulator.Command.Turning.{turn-InRange, turn-ne-crashed, run-concat}
use sentinelstream.Simulator.Command.States.{Inv, launch-InRange, at, keeps, open_channel}

err-ne-ok : {E A : Type 0} {e : E} {a : A} → err e ≡ ok a → ⊥
err-ne-ok h = cc h

ok_injective : {E A : Type 0} {a b : A} → ◌≡◌ {A = Result E A} (ok a) (ok b) → a ≡ b
ok_injective h = cc h

module _ {S : Type 0} (rand : Random S) (marshal : Marshaller) where
  Step-Inv :
      (verbose : Bool) (sim₀ : Simulator S) (wire₀ : Wire)
      → sim₀.generator_index ≡ 0
      → {c d : Command S} → Step rand marshal verbose c d
      → Inv rand marshal sim₀ wire₀ c
      → Inv rand marshal sim₀ wire₀ d
  unfolding run
  Step-Inv verbose sim₀ wire₀ z {c} (launch_well sim d x y w h) v =
      let (same, none_made) = at rand marshal sim₀ wire₀ c v (launching sim) w in
      keeps rand marshal sim₀ wire₀ c v (running sim) c.messages c.cancelled c.front c.place
        (
          launch-InRange rand marshal sim d (ap (λ s. s.generator_index) same ∙ z) h,
          ([], ap₂ (λ l s. (l, going s)) (sym (ap reverse none_made)) (sym same)),
        )
        (v.closed ∙ ap has_ended w) refl refl refl refl v.paced
  Step-Inv verbose sim₀ wire₀ z {c} (launch_empty sim ch x y w h k) v =
      let (same, none_made) = at rand marshal sim₀ wire₀ c v (launching sim) w in
      let (shut, cap, buf) = close-returns c.messages ch k in
      keeps rand marshal sim₀ wire₀ c v ended ch c.cancelled _ c.place
        ([], sym (ap reverse none_made)) shut cap buf refl refl
        (unfold summaries in
          omega (arith, v.paced, summaries-append c.front.printed (simulator_error ∷ [])))
  Step-Inv verbose sim₀ wire₀ z {c} (launch_fatal sim x y w h) v =
      let (same, none_made) = at rand marshal sim₀ wire₀ c v (launching sim) w in
      record {
        fatal = λ _. subst (λ s. IsFatal (launch s)) same h;
        run_so_far = v.run_so_far;
        closed = v.closed;
        capacity = v.capacity;
        bounded = v.bounded;
        fifo = v.fifo;
        counted = v.counted;
        carried = v.carried;
        paced = v.paced;
      }
  Step-Inv verbose sim₀ wire₀ z {c} (produce sim sim' now msg ch x y w t k) v =
      let (ranged, (events, e)) = at rand marshal sim₀ wire₀ c v (running sim) w in
      let (shut, cap, buf, room) = send-returns msg c.messages ch k in
      record {
        fatal = v.fatal;
        run_so_far = (
          turn-InRange rand marshal (ticks now true) sim sim' (msg ∷ []) ranged t,
          (
            events ++ ticks now true ∷ [],
            run-concat rand marshal events sim₀ sim sim' c.made (ticks now true) msg e t,
          ),
        );
        closed = shut ∙ v.closed ∙ ap has_ended w;
        capacity = cap ∙ v.capacity;
        bounded =
            omega
              (arith, ap length buf, length-append c.messages.buffer (msg ∷ []), room, v.capacity);
        fifo = rw buf (fifo_send msg c.made (map (λ t. t.0) c.tries) c.messages.buffer v.fifo);
        counted = v.counted;
        carried = v.carried;
        paced = v.paced;
      }
  Step-Inv verbose sim₀ wire₀ z {c} (produce_crash sim now sent msgs x y w t) v =
      let (ranged, (events, e)) = at rand marshal sim₀ wire₀ c v (running sim) w in
      absurd (turn-ne-crashed rand marshal (ticks now sent) sim msgs ranged t)
  Step-Inv verbose sim₀ wire₀ z {c} (produce_closed sim msg x y w k) v =
      absurd
        (open_channel rand marshal sim₀ wire₀ c v (ap has_ended w) (send-panics msg c.messages k))
  Step-Inv verbose sim₀ wire₀ z {c} (stop sim sim' e msgs ch x y w b t k) v =
      let (ranged, (events, q)) = at rand marshal sim₀ wire₀ c v (running sim) w in
      let (shut, cap, buf) = close-returns c.messages ch k in
      keeps rand marshal sim₀ wire₀ c v ended ch c.cancelled c.front c.place
        (events, ap (λ r. r.0) q) shut cap buf refl refl v.paced
  Step-Inv verbose sim₀ wire₀ z {c} (close_closed x y w k) v =
      absurd (open_channel rand marshal sim₀ wire₀ c v w (close-panics c.messages k))
  Step-Inv verbose sim₀ wire₀ z {c} (receive failure at' msg rest x y b h) v =
      let (wire, n) = pass_on_counts marshal verbose failure at' msg c.front in
      record {
        fatal = v.fatal;
        run_so_far = v.run_so_far;
        closed = v.closed;
        capacity = v.capacity;
        bounded = omega (arith, ap length b, v.bounded);
        fifo =
            fifo_take msg c.made (map (λ t. t.0) c.tries) rest
              (v.fifo ∙ ap (λ l. reverse (map (λ t. t.0) c.tries) ++ l) b);
        counted = omega (arith, n, v.counted);
        carried =
            wire
            ∙ ap (λ w. (send_over marshal failure msg w).0) v.carried
            ∙ send_over-loaded marshal msg failure c.tries wire₀;
        paced = pass_on-IsPaced marshal verbose failure at' msg c.front h v.paced;
      }
  Step-Inv verbose sim₀ wire₀ z {c} (finish x y b k) v =
      keeps rand marshal sim₀ wire₀ c v c.working c.messages c.cancelled c.front returned
        v.run_so_far v.closed refl refl refl refl v.paced
  Step-Inv verbose sim₀ wire₀ z {c} (interrupt now x y) v =
      keeps rand marshal sim₀ wire₀ c v c.working c.messages true _ leaving v.run_so_far v.closed
        refl refl refl refl
        (unfold summaries in
          omega (
            arith,
            v.paced,
            summaries-append c.front.printed
                (farewell c.front.message_count (elapsed now c.front.start_time) ∷ []),
          ))
  Step-Inv verbose sim₀ wire₀ z {c} (leave x y) v =
      keeps rand marshal sim₀ wire₀ c v c.working c.messages c.cancelled c.front returned
        v.run_so_far v.closed refl refl refl refl v.paced

  Reach-Inv :
      (verbose : Bool) (sim₀ : Simulator S) (wire₀ : Wire)
      → sim₀.generator_index ≡ 0
      → {c d : Command S} → Inv rand marshal sim₀ wire₀ c
      → Reach rand marshal verbose c d
      → Inv rand marshal sim₀ wire₀ d
  Reach-Inv verbose sim₀ wire₀ z v here = v
  Reach-Inv verbose sim₀ wire₀ z v (next r st) =
      Step-Inv verbose sim₀ wire₀ z st (Reach-Inv verbose sim₀ wire₀ z v r)

  begin-Inv :
      (sim : Simulator S) (wire : Wire) (now : Time)
      → wire ≡ loaded marshal [] wire
      → Inv rand marshal sim wire (begin sim wire now)
  unfolding summaries
  begin-Inv sim wire now e = record {
    fatal = λ h. cc h;
    run_so_far = (refl, refl);
    closed = refl;
    capacity = refl;
    bounded = omega arith;
    fifo = refl;
    counted = refl;
    carried = e;
    paced = omega arith;
  }

  wire_to_empty :
      {C : Type 0} (r : Result DialError (Sender C)) (wire : Wire)
      → wire_to r ≡ ok wire
      → wire ≡ loaded marshal [] wire
  unfolding loaded
  wire_to_empty (err e) wire h = absurd (err-ne-ok h)
  wire_to_empty (ok (udp_sender conn)) wire h =
      subst (λ w. w ≡ loaded marshal [] w) (ok_injective h) refl
  wire_to_empty (ok (tcp_sender conn)) wire h =
      subst (λ w. w ≡ loaded marshal [] w) (ok_injective h) refl

  open_wire_empty :
      {C : Type 0} (dial : String → String → Result String C) (flags : Flags) (wire : Wire)
      → open_wire dial flags ≡ ok wire
      → wire ≡ loaded marshal [] wire
  unfolding open_wire
  open_wire_empty dial flags wire h = elim (Bool-cases (str_eq flags.target "")) [
    | inl none_given ↦
        subst (λ w. w ≡ loaded marshal [] w) (ok_injective (rw none_given at h))
          (unfold loaded in refl)
    | inr given ↦
        wire_to_empty (new_sender dial flags.protocol_name flags.target) wire (rw given at h)
  ]

  begun :
      (sim : Simulator S) (now : Time) (o : Result DialError Wire) (c : Command S)
      → begin_with sim now o ≡ ok c
      → (wire : Wire) × (o ≡ ok wire) × (begin sim wire now ≡ c)
  begun sim now (err e) c h = absurd (err-ne-ok h)
  begun sim now (ok wire) c h = (wire, refl, ok_injective h)

  -- In every state that the simulator command reaches, it has panicked only if `Run` does so before its
  -- loop; its channel holds at most 100 messages; the messages that went into it are those that `Run`
  -- sends for some events, and are, in their order, those that `main` received and those in the channel;
  -- `main` counts those that it received, and what its sender has carried are these, marshalled and in
  -- their order, without those whose write failed (of a stream, with the bytes written before it failed);
  -- and for each summary printed there are five seconds between the start and the last one.
  pub command_invariant :
      {C : Type 0} (sprintf : String → ℕ → String) (dial : String → String → Result String C)
      (flags : Flags) (source : S) (now : Time) {c d : Command S}
      → start_command rand sprintf dial flags source now ≡ ok c
      → Reach rand marshal flags.verbose c d
      → Inv rand marshal (new_simulator rand sprintf (config_of flags) source) c.front.wire d
  unfolding start_command
  command_invariant sprintf dial flags source now {c} h r =
      let sim = new_simulator rand sprintf (config_of flags) source in
      let (wire, opened, same) = begun sim now (open_wire dial flags) c h in
      let started =
        subst (λ b. Inv rand marshal sim b.front.wire b) same
          (begin-Inv sim wire now (open_wire_empty dial flags wire opened)) in
      Reach-Inv flags.verbose sim c.front.wire (unfold new_simulator in refl) started r
