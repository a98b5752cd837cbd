-- ===== src/Store.antt =====
-- app/agent/store.py: the SQLite store of runs, events, conversations and metrics.
pub mod Schema
pub mod Transaction
pub mod Ledger
pub mod Create
pub mod Lease
pub mod Memory
pub mod Commit
pub mod Replay
pub mod Metrics
pub mod Change
pub mod Operations
pub mod Trace
mod Examples
