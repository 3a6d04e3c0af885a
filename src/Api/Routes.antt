-- ===== src/Api/Routes.antt =====
-- internal/api/api.go: the routes of `NewServer`, `withCORS`, and how an answer is written. The path of
-- a request is its segments, decoded, behind the cleaning that the multiplexer does; of an answer to HEAD
-- the body is what the handler writes. `none` is a handler that panics.
pub mod Paths
pub mod Answers
use sentinelstream.Prelude.{
  ℕ, Bool, true, false, ◌||◌, Option, none, some, List, [], ◌∷◌, String, str_eq, if◌then◌else◌,
}
use sentinelstream.Prelude.Panic.{◌>>=◌}
use sentinelstream.Api.{
  Server, SensorSummary, SensorDetail, SensorAnswer, found, not_found, StreamHealth, MetricsSummary,
  handle_list_sensors, handle_get_sensor, handle_health_streams, handle_metrics_summary,
}

pub record Request : Type 0 where
  pub method : String
  pub path : List String

-- `unknown_sensor` is `{"error": "sensor … not found"}`; `text` is what the multiplexer answers.
pub data Body : Type 0 where
  nothing : Body
  sensors : List SensorSummary → Body
  sensor : SensorDetail → Body
  unknown_sensor : String → Body
  streams : StreamHealth → Body
  metrics : MetricsSummary → Body
  text : String → Body

pub record Response : Type 0 where
  pub status : ℕ
  pub headers : List (String × String)
  pub body : Body

-- `writeJSON`, with the headers that are set before it.
abbrev pub write_json : List (String × String) → ℕ → Body → Response
write_json headers status body = record {
  status = status;
  headers = ("Content-Type", "application/json") ∷ headers;
  body = body;
}

-- `writeJSONError`
abbrev pub write_json_error : List (String × String) → ℕ → Body → Response
write_json_error = write_json

-- `http.Error`
abbrev pub write_text : List (String × String) → ℕ → String → Response
write_text headers status message = record {
  status = status;
  headers = ("Content-Type", "text/plain; charset=utf-8") ∷ headers;
  body = text message;
}

pub data Handler : Type 0 where
  list_sensors get_sensor health_streams metrics_summary : Handler

-- A segment of a pattern.
pub data Segment : Type 0 where
  word : String → Segment
  wildcard : Segment

pub record Route : Type 0 where
  pub pattern : List Segment
  pub handler : Handler

-- All routes are for GET, which HEAD matches too.
abbrev pub routes : List Route
routes =
    record { pattern = word "api" ∷ word "v1" ∷ word "sensors" ∷ []; handler = list_sensors }
    ∷ record {
      pattern = word "api" ∷ word "v1" ∷ word "sensors" ∷ wildcard ∷ [];
      handler = get_sensor;
    }
    ∷ record {
      pattern = word "api" ∷ word "v1" ∷ word "health" ∷ word "streams" ∷ [];
      handler = health_streams;
    }
    ∷ record {
      pattern = word "api" ∷ word "v1" ∷ word "metrics" ∷ word "summary" ∷ [];
      handler = metrics_summary;
    }
    ∷ []

-- What the wildcard stands for, "" where there is none; it does not match an empty segment.
unfoldable pub matches : List Segment → List String → Option String
matches [] [] = some ""
matches [] (x ∷ path) = none
matches (p ∷ pattern) [] = none
matches (word s ∷ pattern) (x ∷ path) = if str_eq s x then matches pattern path else none
matches (wildcard ∷ pattern) (x ∷ path) =
    if str_eq "" x then none else matches pattern path >>= (λ rest. some x)

-- `handleGetSensor` writes the detail, or an error.
abbrev pub write_sensor : List (String × String) → SensorAnswer → Response
write_sensor headers (found d) = write_json headers 200 (sensor d)
write_sensor headers (not_found id) = write_json_error headers 404 (unknown_sensor id)

unfoldable pub handle : List (String × String) → Handler → String → Server → Option Response
handle headers list_sensors id s = some (write_json headers 200 (sensors (handle_list_sensors s)))
handle headers get_sensor id s = some (write_sensor headers (handle_get_sensor id s))
handle headers health_streams id s = do
  health ← handle_health_streams s
  some (write_json headers 200 (streams health))
handle headers metrics_summary id s = do
  summary ← handle_metrics_summary s
  some (write_json headers 200 (metrics summary))

abbrev pub is_read : String → Bool
is_read method = str_eq method "GET" || str_eq method "HEAD"

-- The multiplexer: the first route whose pattern matches.
unfoldable pub route : List (String × String) → List Route → Request → Server → Option Response
route headers [] req s = some (write_text headers 404 "404 page not found")
route headers (r ∷ rs) req s = elim (matches r.pattern req.path) [
  | none ↦ route headers rs req s
  | some id ↦
      if is_read req.method
      then handle headers r.handler id s
      else some (write_text (("Allow", "GET, HEAD") ∷ headers) 405 "Method Not Allowed")
]

abbrev pub cors : List (String × String)
cors = ("Access-Control-Allow-Methods", "GET, OPTIONS") ∷ ("Access-Control-Allow-Origin", "*") ∷ []

-- `withCORS` around the multiplexer.
unfoldable pub serve : Request → Server → Option Response
serve req s =
    if str_eq req.method "OPTIONS"
    then some (record { status = 204; headers = cors; body = nothing })
    else route cors routes req s
