-- ===== src/EventHub.antt =====
-- src/application/events.py: the event stream of the control plane. A queue is known by a number
-- and stands in the record of its subscriber; the callbacks that `call_soon_threadsafe` leaves on
-- another event loop stand in `scheduled` until that loop runs them.
pub mod Cursor
mod Steps
pub mod Log
pub mod Replay
pub mod Bounds
pub mod Queues
pub mod Delivery
mod Tests
unfoldable pub use Steps.*
