-- ===== src/History.antt =====
-- What the event log says of a run: the specification that the services are proved against. A run's
-- events are numbered from 1 without a gap, the row's `event_sequence` is the next number, and
-- replaying the events gives the row's status.
pub mod Replay
pub mod Sound
pub mod Append
pub mod Step
unfoldable pub use Replay.*
pub mod Page
