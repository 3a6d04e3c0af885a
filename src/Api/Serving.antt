-- ===== src/Api/Serving.antt =====
-- internal/api/api.go: starting and stopping the HTTP server. `net.Listen` and the end of `Shutdown` are
-- arguments.
use sentinelstream.Prelude.{Bool, true, false, Option, none, some, String, Result, ok, err}

-- The server: the address to listen on, the one it listens on, and whether it was shut down.
pub record Serving : Type 0 where
  pub configured : String
  pub listener : Option String
  pub shut_down : Bool

abbrev pub new_serving : String → Serving
new_serving addr = record { configured = addr; listener = none; shut_down = false }

-- The argument is the address that the listener has, or an error.
unfoldable pub start : Result String String → Serving → Serving × Option String
start result s = elim result [
  | err e ↦ (s, some e)
  | ok bound ↦ (record s { listener = some bound }, none)
]

unfoldable pub addr : Serving → String
addr s = elim s.listener [ none ↦ "" | some bound ↦ bound ]

-- `some e`: the context ends before the requests do.
unfoldable pub stop : Option String → Serving → Serving × Option String
stop expired s = (record s { shut_down = true }, expired)
