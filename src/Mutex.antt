-- ===== src/Mutex.antt =====
-- The mutex of coroutines and threads: `mutex_impl` of src/co/co.cc, behind `co::mutex`.
pub mod Queue
pub mod Lock
pub mod Refinement
pub mod System
pub mod Exclusion
mod Tests
