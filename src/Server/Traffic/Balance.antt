-- ===== src/Server/Traffic/Balance.antt =====
-- No message is lost between the forwarders, the recorder and the queue, and none is made up.
use sentinelstream.Prelude.{ℕ, ◌+◌, ◌≡◌, subst, Bool, List, String, Result, arith}
use sentinelstream.Protocol.Types.{TelemetryMessage}
use sentinelstream.Server.Traffic.{
  Side, update, Hand, idle, recording, testing, selecting, left, Live, Step, Reach, here, next,
  arrive, take, write_well, write_badly, write_late, pass, turn_away, accept, refuse, crash, leave,
  work, close_recorder, stop_api, stop_tcp, stop_udp, stop_monitor, stop_proc,
}
use sentinelstream.Server.Traffic.Counts.{count, before_record, behind_record, both, both-update}

-- For every kind of message: those taken are those that passed the recorder and those before it, and
-- those that passed it are those that passed `Enqueue` and those before it.
pub record IsBalanced (taken written missed accepted refused : List TelemetryMessage)
    (hands : Side → Hand) : Type 0 where
  pub taken_count :
      (p : TelemetryMessage → Bool)
      → count p taken ≡ count p written + count p missed + both (before_record p) hands
  pub passed_count :
      (p : TelemetryMessage → Bool)
      → count p written + count p missed
        ≡ count p accepted + count p refused + both (behind_record p) hands

abbrev pub Balance : Live → Type 0
Balance s = IsBalanced s.taken s.written s.missed s.accepted s.refused s.hands

-- A forwarder that moves from one place to another, when the counts move with it.
moved :
    {taken written missed accepted refused taken' written' missed' accepted' refused' : List
      TelemetryMessage}
    {hands : Side → Hand} (side : Side) (h h' : Hand)
    → hands side ≡ h
    → ((p : TelemetryMessage → Bool)
        → (count p taken' + count p written + count p missed + before_record p h
            ≡ count p taken + count p written' + count p missed' + before_record p h')
          × (count p written'
                + count p missed'
                + count p accepted
                + count p refused
                + behind_record p h
              ≡ count p written
                + count p missed
                + count p accepted'
                + count p refused'
                + behind_record p h'))
    → IsBalanced taken written missed accepted refused hands
    → IsBalanced taken' written' missed' accepted' refused' (update side h' hands)
moved {hands = hands} side h h' e fits v =
    let move : (weigh : Hand → ℕ)
        → both weigh (update side h' hands) + weigh h ≡ both weigh hands + weigh h' =
      λ weigh.
        subst (λ k. both weigh (update side h' hands) + weigh k ≡ both weigh hands + weigh h') e
          (both-update weigh side h' hands) in
    record {
      taken_count = λ p. omega (arith, v.taken_count p, (fits p).0, move (before_record p));
      passed_count = λ p. omega (arith, v.passed_count p, (fits p).1, move (behind_record p));
    }

module _ (marshal : TelemetryMessage → Result String (List ℕ)) where
  Step-Balance : {s t : Live} → Step marshal s t → Balance s → Balance t
  Step-Balance (arrive side msg ch c e) v = v
  Step-Balance (take side msg rest c h e) v =
      moved side idle (recording msg) h (λ p. (omega arith, omega arith)) v
  Step-Balance (write_well side msg file c h o e) v =
      moved side (recording msg) (testing msg) h (λ p. (omega arith, omega arith)) v
  Step-Balance (write_badly side msg failure file x c h o e) v =
      moved side (recording msg) (testing msg) h (λ p. (omega arith, omega arith)) v
  Step-Balance (write_late side msg c h o) v =
      moved side (recording msg) (testing msg) h (λ p. (omega arith, omega arith)) v
  Step-Balance (pass side msg c h o) v =
      moved side (testing msg) (selecting msg) h (λ p. (omega arith, omega arith)) v
  Step-Balance (turn_away side msg c h o) v =
      moved side (testing msg) idle h (λ p. (omega arith, omega arith)) v
  Step-Balance (accept side msg pick p' c h e) v =
      moved side (selecting msg) idle h (λ p. (omega arith, omega arith)) v
  Step-Balance (refuse side msg pick p' x c h e) v =
      moved side (selecting msg) idle h (λ p. (omega arith, omega arith)) v
  Step-Balance (crash side msg pick c h e) v = v
  Step-Balance (leave side c h o e) v = moved side idle left h (λ p. (omega arith, omega arith)) v
  Step-Balance (work job rest c e) v = v
  Step-Balance (close_recorder c e) v = v
  Step-Balance (stop_api c e) v = v
  Step-Balance (stop_tcp ch c e h) v = v
  Step-Balance (stop_udp ch c e h) v = v
  Step-Balance (stop_monitor c e) v = v
  Step-Balance (stop_proc p' x c e h) v = v

  pub Reach-Balance : {s t : Live} → Reach marshal s t → Balance s → Balance t
  Reach-Balance here v = v
  Reach-Balance (next r st) v = Step-Balance st (Reach-Balance r v)
