-- ===== src/Event.antt =====
-- The event of coroutines and threads: `event_impl` of src/co/co.cc, behind `co::event`.
pub mod Impl
pub mod Signals
pub mod Runs
pub mod Owned
pub mod Heard
mod Tests
