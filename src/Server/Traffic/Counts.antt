-- ===== src/Server/Traffic/Counts.antt =====
-- How many of the messages on their way pass a test.
use sentinelstream.Prelude.{ℕ, ◌+◌, ◌≡◌, Bool, List, [], ◌∷◌, if◌then◌else◌, arith}
use sentinelstream.Protocol.Types.{TelemetryMessage}
use sentinelstream.Server.Traffic.{
  Side, udp, tcp, update, Hand, idle, recording, testing, selecting, left,
}

module _ (p : TelemetryMessage → Bool) where
  abbrev pub one : TelemetryMessage → ℕ
  one msg = if p msg then 1 else 0

  abbrev pub count : List TelemetryMessage → ℕ
  count [] = 0
  count (msg ∷ msgs) = one msg + count msgs

  -- The messages before `Record`, and those behind it, in a forwarder and in both.
  abbrev pub before_record : Hand → ℕ
  before_record idle = 0
  before_record (recording msg) = one msg
  before_record (testing msg) = 0
  before_record (selecting msg) = 0
  before_record left = 0

  abbrev pub behind_record : Hand → ℕ
  behind_record idle = 0
  behind_record (recording msg) = 0
  behind_record (testing msg) = one msg
  behind_record (selecting msg) = one msg
  behind_record left = 0

abbrev pub both : (Hand → ℕ) → (Side → Hand) → ℕ
both weigh hands = weigh (hands udp) + weigh (hands tcp)

-- A forwarder that moves on.
pub both-update :
    (weigh : Hand → ℕ) (side : Side) (h : Hand) (hands : Side → Hand)
    → both weigh (update side h hands) + weigh (hands side) ≡ both weigh hands + weigh h
both-update weigh udp h hands = omega arith
both-update weigh tcp h hands = omega arith
