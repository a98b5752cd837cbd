-- ===== src/Runtime.antt =====
-- app/agent/runtime.py: how the runtime starts, ends, fails and cancels a run over the store and
-- the quota gate. `clock n` is the n-th reading of the clock in a method.
pub mod Catalog
pub mod Fallback
pub mod Calls
pub mod Answer
pub mod Endings
pub mod Stream
pub mod Admission
pub mod Refusals
pub mod Failing
mod Examples
