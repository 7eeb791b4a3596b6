-- ===== src/Chan.antt =====
-- Channels: `pipe_impl` and `pipe_impl_cap` of src/co/co.cc, behind `co::chan` and `co::chan1` of
-- include/co/co/chan.h. The parts of an operation that it does under its mutex are one function;
-- what a waiting reader or writer finds when it is resumed is a notice to it.
pub mod Waiters
pub mod Pipe
pub mod PipeCap
pub mod Runs
mod Tests
