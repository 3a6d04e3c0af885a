-- ===== src/Simulator/Sender.antt =====
-- internal/simulator/sender.go. `net.Dial` is an argument. What a connection has carried so far is
-- its datagrams, or its bytes; a write of the socket can fail.
use sentinelstream.Prelude.{
  ℕ, Option, none, some, List, [], ◌∷◌, ◌++◌, String, str_eq, Result, ok, err, if◌then◌else◌, take,
}
use sentinelstream.Protocol.Types.{TelemetryMessage}
use sentinelstream.Simulator.Random.{Marshaller}

-- The connection of a sender, by what it does with a message.
pub data Sender (C : Type 0) : Type 0 where
  udp_sender : C → Sender C
  tcp_sender : C → Sender C

pub data DialError : Type 0 where
  udp_not_dialled : String → String → DialError
  tcp_not_dialled : String → String → DialError
  unsupported : String → DialError

unfoldable pub new_sender :
    {C : Type 0}
    → (String → String → Result String C)
    → String
    → String
    → Result DialError (Sender C)
new_sender dial protocol_name target =
    if str_eq protocol_name "udp"
    then (elim (dial "udp" target) [
      | ok conn ↦ ok (udp_sender conn)
      | err e ↦ err (udp_not_dialled target e)
    ])
    else if str_eq protocol_name "tcp"
    then (elim (dial "tcp" target) [
      | ok conn ↦ ok (tcp_sender conn)
      | err e ↦ err (tcp_not_dialled target e)
    ])
    else err (unsupported protocol_name)

pub data SendError : Type 0 where
  not_marshalled : String → SendError
  not_sent : String → SendError

-- `Send` of the UDP sender; `some e`: the write fails with the error `e`, and sends nothing.
unfoldable pub udp_send :
    Marshaller → Option String → TelemetryMessage → List (List ℕ) → List (List ℕ) × Option SendError
udp_send marshal failure msg datagrams = elim (marshal.telemetry_message msg) [
  | err e ↦ (datagrams, some (not_marshalled e))
  | ok bytes ↦ elim failure [
    | some e ↦ (datagrams, some (not_sent e))
    | none ↦ (datagrams ++ bytes ∷ [], none)
  ]
]

-- `Send` of the TCP sender; `some (e, n)`: the write fails with the error `e` behind `n` bytes.
unfoldable pub tcp_send :
    Marshaller → Option (String × ℕ) → TelemetryMessage → List ℕ → List ℕ × Option SendError
tcp_send marshal failure msg stream = elim (marshal.telemetry_message msg) [
  | err e ↦ (stream, some (not_marshalled e))
  | ok bytes ↦ elim failure [
    | some (e, n) ↦ (stream ++ take n (bytes ++ 10 ∷ []), some (not_sent e))
    | none ↦ (stream ++ (bytes ++ 10 ∷ []), none)
  ]
]
