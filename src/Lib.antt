-- ===== src/Lib.antt =====
-- SentinelStream: sensors send telemetry messages over UDP or TCP, a bounded pool of workers checks
-- them and keeps the state of each sensor, a monitor marks silent sensors as stale, and a REST API
-- shows the state and the metrics.
--
-- How the parts interact: a listener (internal/ingestion) parses and validates a datagram or a line
-- into a `TelemetryMessage` (internal/protocol); the server hands it to `Enqueue` of the pool
-- (internal/processor); a worker takes it from the queue, calls `Update` of the store
-- (internal/state), checks the payload of its sensor type, counts the outcome in its own counters and
-- in the store, and records two latencies (internal/metrics). The monitor (internal/health) scans the
-- store; the API (internal/api) reads all of them. A recorder writes messages to a file and a player
-- feeds them back to a handler (internal/replay). cmd/server starts the parts and forwards messages. A
-- simulator (internal/simulator) makes up sensors and sends their messages to a listener.
--
-- Which file models what:
--
--   Prelude, Clock, Float   Boolean tests, integers, lists, association lists, 64-bit words,
--                           arrays, channels, queues and results; Go's time. Float has float64 and its
--                           comparisons, Float/Arith its arithmetic, Bounds and Quotients bounds of it,
--                           Exact where it does not round.
--   Protocol                internal/protocol: Types is types.go, Validation is validation.go,
--                           Parser is parser.go. Validation/Ranges is about the validators, Parsing about
--                           the parser of messages.
--   State                   internal/state/state.go: Store has the operations, one definition for each
--                           method (`update` for Update, `check_stale` for CheckStale, ...). Log runs
--                           any sequence of calls. Window, History, Sequences, Counters, Keys, Marks
--                           and Growth are about what the store holds after it.
--   Metrics                 internal/metrics/latency.go: Latency has the recorder, Rounding the product
--                           of a percentile and a count as float64, Sort what sort.Slice leaves. Ring,
--                           History and Percentiles compare the circular buffer with all samples.
--   Processor               internal/processor: Worker is worker.go, Pool is processor.go. System has
--                           the steps of callers, workers and Stop in any order. Outcomes, Handling,
--                           Effects, States, Invariant, Lifecycle and Stats are about them. Texts has what
--                           ProcessorStats.String shows.
--   Ingestion               internal/ingestion: Udp is udp.go, with one round of receiveLoop as
--                           `receive_round`; Reading runs the loop on any reads, and Receiving is about
--                           that. Datagrams cuts the loop where it waits and has its steps, those of
--                           Stop and those of receivers in any order; Rounds, Selects, States and
--                           Invariant are about that. Tcp is tcp.go, with a definition for each
--                           stretch of acceptLoop, handleConnection and Stop between two points where
--                           they wait; Connections
--                           has the steps of all of them in any order, and Effects, States,
--                           Preserved, Invariant and Shutdown are about that. Rates has the String
--                           methods of the statistics, with Bounds about them.
--   Health                  internal/health/monitor.go.
--   Api                     internal/api/api.go: the four handlers. Listing is about them. Routes has
--                           the routes, withCORS and the writing of answers, with Paths and Answers
--                           about them; Serving has Start, Addr and Stop.
--   Replay                  internal/replay: Files has recorder.go and Replay of player.go,
--                           Scanner the lines that bufio.Scanner finds. Roundtrip puts them together.
--                           Command is cmd/replay/main.go.
--   Simulator               internal/simulator: Sensors and Generators are generator.go, Running is
--                           simulator.go, Sender is sender.go, and Random what they use of math/rand
--                           and json.Marshal. Generated, Messages, Rounds, Building and Launching are
--                           about the simulator; Delivery and Datagrams put a sender and a listener
--                           together. Flags and Command are cmd/simulator/main.go: the sensor types of
--                           its flag, and its loop beside the goroutine of the simulator, in any order
--                           of their steps (Steps); Sent, Turning, States and Invariant are about
--                           that.
--   Server                  cmd/server/main.go: what it starts, and `forward`. Forwarding is about it,
--                           and Replaying and Reporting about a replay of what it recorded. Printing
--                           has the statistics that it prints. Lifecycle is `main` from its flags to
--                           its deferred calls; Booting, Starting and Shutdown are about that. Traffic
--                           has the steps of its forwarders and of these calls in any order; Counts,
--                           Balance, States, Recording and Races are about that.
--   Logging                 internal/logging/logging.go: the renaming of keys.
--
-- How state is modelled: a struct that the code changes through a pointer is a record that each
-- operation takes and returns. A method that holds a mutex is one step. A map is an association list
-- with distinct keys; its order, which Go leaves open, is that of insertion. A uint64 wraps around
-- where the code adds to it. A panic is `none`, or the outcome `panics` where an operation
-- can also block. A worker handles a message as one step for the counters; the interleavings of the
-- pool are those of its channels, of `isRunning` and of its count of messages. A handler of the TCP
-- listener that leaves takes its connection out of the map and off the count in one step. An atomic
-- counter that is added to is a 64-bit sum.
--
-- Bounds and fuel: only the rounding to 53 bits runs on fuel. In Metrics it doubles its unit up to 2^53,
-- which is enough for counts below 2^53; in Float/Arith it doubles it 2046 times from 2^-1074 on, and no
-- finite float64 needs more than 2045. Theorems about sequence numbers assume that they are below
-- 2^64, or leave room below it, as each says.
--
-- Parameters: json.Unmarshal is the record `Codec`, of which nothing is assumed. Each reading of the
-- clock is an argument, and so is what a socket gives and the choice of a select. Record and Replay
-- take json.Marshal, json.Unmarshal, the handler and the readings of the context as arguments. The
-- simulator takes math/rand as the record `Random`, with its documented ranges as the hypothesis
-- `IsRandom`, json.Marshal as `Marshaller`, and Sprintf and net.Dial as functions.
--
-- What is not modelled: log lines and their handler, but for the names of their keys; the recovery from a
-- panic inside a worker, since nothing that it guards panics in the model; the words of printed texts,
-- which are there by the values that they show; the parsing of flags but for the sensor types; HTTP
-- itself: a request is its method and the segments of its path; what opening a file does, and a
-- read that fails within a recorded file; and the waits for goroutines but where a step of `Stop` is one.
-- The dashboard and the benchmarks are left out: the one is a page for the browser, and the others only
-- measure.
pub mod Prelude
pub mod Clock
pub mod Float
pub mod Protocol
pub mod State
pub mod Metrics
pub mod Processor
pub mod Ingestion
pub mod Health
pub mod Api
pub mod Replay
pub mod Simulator
pub mod Server
pub mod Logging
