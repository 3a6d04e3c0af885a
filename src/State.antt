-- ===== src/State.antt =====
-- internal/state/state.go: the latest state of every sensor. The map `sensors` is an association
-- list; a method is one step, as the mutex makes it; `now` is the reading of `time.Now()`.
-- The order in which Go ranges over a map is not fixed: only facts that do not depend on the
-- order of the list are stated of what comes out of a range loop.
pub mod Store
pub mod Marks
pub mod Window
pub mod Log
pub mod History
pub mod Sequences
pub mod Counters
pub mod Keys
pub mod Growth
mod Tests
