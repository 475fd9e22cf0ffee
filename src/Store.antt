-- ===== src/Store.antt =====
-- internal/store: the queue of runs, its leases and the slots of the schedule.
pub mod Table
pub mod Row
pub mod Queue
pub mod Operations
pub mod Held
pub mod Lease
pub mod Keyed
pub mod Changes
pub mod Claim
pub mod Cancel
pub mod Settled
pub mod Slots
pub mod Deliveries
pub mod Lasting
pub mod Considered
pub mod Plans
pub mod Access
