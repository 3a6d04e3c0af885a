-- ===== src/Ingestion/Rates.antt =====
-- `String` of the statistics of internal/ingestion/udp.go and tcp.go: the numbers that the text shows.
-- Its words, and how `fmt` writes a number, are left out.
pub mod Bounds
use sentinelstream.Prelude.{ℕ, if◌then◌else◌, ltb, add64, ℤ, pos}
use sentinelstream.Float.{Float64, whole}
use sentinelstream.Float.Arith.{mul_float, div_float, of_whole}
use sentinelstream.Ingestion.Udp.{ListenerStats}
use sentinelstream.Ingestion.Tcp.{TcpListenerStats}

-- The share of the messages that were received, in percent.
unfoldable pub accept_rate : ℕ → ℕ → Float64
accept_rate received rejected =
    let total = add64 received rejected in
    if ltb 0 total
    then div_float (mul_float (whole (pos 100)) (of_whole received)) (of_whole total)
    else whole (pos 0)

pub record ListenerText : Type 0 where
  pub received : ℕ
  pub rejected : ℕ
  pub rate : Float64

pub record TcpListenerText : Type 0 where
  pub messages : ListenerText
  pub active : ℤ
  pub total : ℕ

unfoldable pub udp_string : ListenerStats → ListenerText
udp_string s = record {
  received = s.messages_received;
  rejected = s.messages_rejected;
  rate = accept_rate s.messages_received s.messages_rejected;
}

unfoldable pub tcp_string : TcpListenerStats → TcpListenerText
tcp_string s = record {
  messages = record {
    received = s.messages_received;
    rejected = s.messages_rejected;
    rate = accept_rate s.messages_received s.messages_rejected;
  };
  active = s.active_connections;
  total = s.total_connections;
}
