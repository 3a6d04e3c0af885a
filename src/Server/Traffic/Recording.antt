-- ===== src/Server/Traffic/Recording.antt =====
-- What the record file and the queue hold of the messages that were forwarded.
use mathlib.Core.List.{reverse, reverse-cons}
use sentinelstream.Prelude.{
  ℕ, ◌+◌, ◌≡◌, refl, sym, ap, subst, ◌∙◌, Bool, true, false, Option, none, List, [], ◌∷◌, ◌++◌,
  String, Result, ok, returns, arith,
}
use sentinelstream.Protocol.Types.{TelemetryMessage}
use sentinelstream.Processor.Lifecycle.{IsLive}
use sentinelstream.Replay.Files.{record_event}
use sentinelstream.Replay.Roundtrip.{record_all}
use sentinelstream.Server.Booting.{boot-IsBooted}
use sentinelstream.Server.{Flags, Services, boot}
use sentinelstream.Server.Traffic.{
  udp, update, idle, serving, recorder_closed, api_stopped, tcp_stopped, udp_stopped,
  monitor_stopped, proc_stopped, Live, Step, Reach, here, next, arrive, take, write_well,
  write_badly, write_late, pass, turn_away, accept, refuse, crash, leave, work, close_recorder,
  stop_api, stop_tcp, stop_udp, stop_monitor, stop_proc,
}
use sentinelstream.Server.Traffic.Counts.{count, before_record, behind_record, both}
use sentinelstream.Server.Traffic.Balance.{Reach-Balance}
use sentinelstream.Server.Traffic.States.{
  is_serving, is_over, Accepted, true-ne-false, Inv, keeps, walks, steps_on, select-Inv,
}

record_all-concat :
    (marshal : TelemetryMessage → Result String (List ℕ)) (msgs : List TelemetryMessage)
    (msg : TelemetryMessage) (file : List ℕ)
    → record_all marshal (msgs ++ msg ∷ []) file
      ≡ (record_event marshal none msg (record_all marshal msgs file)).0
unfolding record_all
record_all-concat marshal [] msg file = refl
record_all-concat marshal (m ∷ msgs) msg file =
    record_all-concat marshal msgs msg (record_event marshal none m file).0

module _ (marshal : TelemetryMessage → Result String (List ℕ)) where
  Step-Inv : {s t : Live} → Step marshal s t → Inv marshal s → Inv marshal t
  Step-Inv {s} (arrive side msg ch c e) v = walks marshal s _ s.hands s.taken v
  Step-Inv {s} (take side msg rest c h e) v = walks marshal s _ _ (msg ∷ s.taken) v
  Step-Inv {s} (write_well side msg file c h o e) v = record {
    content = λ f.
        sym (ap (λ r. r.0) e)
        ∙ ap (λ l. (record_event marshal none msg l).0) (v.content f)
        ∙ sym (record_all-concat marshal (reverse s.written) msg [])
        ∙ ap (λ l. record_all marshal l []) (sym (reverse-cons msg s.written));
    none_missed = v.none_missed;
    open_file = v.open_file;
    up = v.up;
  }
  Step-Inv {s} (write_badly side msg failure file x c h o e) v = record {
    content = λ f. absurd (true-ne-false f);
    none_missed = λ f. absurd (true-ne-false f);
    open_file = v.open_file;
    up = v.up;
  }
  Step-Inv {s} (write_late side msg c h o) v = record {
    content = v.content;
    none_missed = λ f k. absurd (true-ne-false (sym k ∙ o));
    open_file = v.open_file;
    up = v.up;
  }
  Step-Inv {s} (pass side msg c h o) v = walks marshal s s.inputs _ s.taken v
  Step-Inv {s} (turn_away side msg c h o) v = record {
    content = v.content;
    none_missed = v.none_missed;
    open_file = v.open_file;
    up = λ k. absurd (true-ne-false (sym (v.up k).live.running ∙ o));
  }
  Step-Inv {s} (accept side msg pick p' c h e) v =
      keeps marshal s s.inputs _ s.file_open p' s.stage s.taken (msg ∷ s.accepted) v (λ k. k)
        v.open_file (λ k. (k, subst Accepted e (select-Inv marshal s side msg pick v k)))
  Step-Inv {s} (refuse side msg pick p' x c h e) v = record {
    content = v.content;
    none_missed = v.none_missed;
    open_file = v.open_file;
    up = λ k. absurd (subst Accepted e (select-Inv marshal s side msg pick v k));
  }
  Step-Inv {s} (crash side msg pick c h e) v = record {
    content = v.content;
    none_missed = v.none_missed;
    open_file = v.open_file;
    up = λ k. absurd (subst Accepted e (select-Inv marshal s side msg pick v k));
  }
  Step-Inv {s} (leave side c h o e) v = walks marshal s s.inputs _ s.taken v
  Step-Inv {s} (work job rest c e) v =
      keeps marshal s s.inputs s.hands s.file_open _ s.stage s.taken s.accepted v (λ h. h)
        v.open_file
        (λ h.
          let l = (v.up h).live in
          (h, record { running = l.running; open_stop = l.open_stop; open_jobs = l.open_jobs }))
  Step-Inv {s} (close_recorder c e) v =
      keeps marshal s s.inputs s.hands false s.proc recorder_closed s.taken s.accepted v
        (λ h. absurd (true-ne-false (sym h))) refl
        (λ h. let still = ap is_over e in (still, (v.up still).live))
  Step-Inv {s} (stop_api c e) v =
      steps_on marshal s s.inputs s.proc recorder_closed api_stopped v e refl refl (λ h l. l)
  Step-Inv {s} (stop_tcp ch c e h) v =
      steps_on marshal s _ s.proc api_stopped tcp_stopped v e refl refl (λ h l. l)
  Step-Inv {s} (stop_udp ch c e h) v =
      steps_on marshal s _ s.proc tcp_stopped udp_stopped v e refl refl (λ h l. l)
  Step-Inv {s} (stop_monitor c e) v =
      steps_on marshal s s.inputs s.proc udp_stopped monitor_stopped v e refl refl (λ h l. l)
  Step-Inv {s} (stop_proc p' x c e h) v =
      steps_on marshal s s.inputs _ monitor_stopped proc_stopped v e refl refl
        (λ k. absurd (true-ne-false k))

  Reach-Inv : {s t : Live} → Inv marshal s → Reach marshal s t → Inv marshal t
  Reach-Inv v here = v
  Reach-Inv v (next r st) = Step-Inv st (Reach-Inv v r)

-- The server behind its start, with a new record file.
abbrev pub opening : Services → Live
opening services = record {
  inputs = update udp services.udp.messages (λ _. services.tcp.messages);
  hands = λ _. idle;
  file = [];
  file_open = true;
  proc = services.proc;
  stage = serving;
  crashed = false;
  failed = false;
  taken = [];
  written = [];
  missed = [];
  accepted = [];
  refused = [];
}

opening-Inv :
    (marshal : TelemetryMessage → Result String (List ℕ)) (services : Services)
    → IsLive services.proc
    → Inv marshal (opening services)
unfolding record_all
opening-Inv marshal services l = record {
  content = λ f. refl;
  none_missed = λ f o. refl;
  open_file = refl;
  up = λ h. record { live = l; none_refused = refl; fine = refl };
}

-- While a server that has started with a new record file serves, and no `Record` has failed, the file
-- is the one after recording the messages written, in this order; for every kind of message there are
-- as many written as `Enqueue` has accepted and the forwarders are about to enqueue, and as many
-- received by the forwarders as written and about to be. Until the processor is stopped, `Enqueue`
-- refuses none of them and does not panic.
pub recorded_exactly :
    (marshal : TelemetryMessage → Result String (List ℕ)) (flags : Flags)
    (udp_bound tcp_bound : Option String) (services : Services) {s : Live}
    → boot flags udp_bound tcp_bound ≡ returns (ok services)
    → Reach marshal (opening services) s
    → (s.stage ≡ serving
        → s.failed ≡ false
        → (s.file ≡ record_all marshal (reverse s.written) [])
          × ((p : TelemetryMessage → Bool)
              → (count p s.written ≡ count p s.accepted + both (behind_record p) s.hands)
                × (count p s.taken ≡ count p s.written + both (before_record p) s.hands)))
      × (is_over s.stage ≡ false → (s.refused ≡ []) × (s.crashed ≡ false))
recorded_exactly marshal flags udp_bound tcp_bound services {s} h r =
    let live = (boot-IsBooted flags udp_bound tcp_bound services h).live in
    let v = Reach-Inv marshal (opening-Inv marshal services live) r in
    let b =
      Reach-Balance marshal r (record { taken_count = λ p. refl; passed_count = λ p. refl }) in
    (
      λ e f.
          let u = v.up (ap is_over e) in
          let none_lost = v.none_missed f (v.open_file ∙ ap is_serving e) in
          (
            v.content f,
            λ p. (
              omega (arith, b.passed_count p, ap (count p) none_lost, ap (count p) u.none_refused),
              omega (arith, b.taken_count p, ap (count p) none_lost),
            ),
          ),
      λ k. let u = v.up k in (u.none_refused, u.fine),
    )
