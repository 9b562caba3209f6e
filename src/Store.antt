-- ===== src/Store.antt =====
-- store.py: the queue's tables, one transaction for each method, and what the methods keep.
pub mod Rows
pub mod Queue
pub mod Leases
pub mod Steps
pub mod Invariant
pub mod History
pub mod Idempotence
pub mod Claiming
pub mod Timeouts
pub mod Pruning
mod Samples
pub mod Prune
