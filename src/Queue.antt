-- ===== src/Queue.antt =====
-- crates/store/src/queue.rs: the durable relay queue, over the rows of `Queue.Rows`.
pub mod Rows
pub mod Table
pub mod Clock
pub mod Policy
pub mod Lease
pub mod Sweep
pub mod Admin
pub mod Enqueue
pub mod Claim
pub mod Integrity
mod Tests
