-- ===== src/Outbox.antt =====
-- The outbox: events that wait, as files beside the nodes that they are about, for the index.
pub mod Event
pub mod Client
pub mod Uri
pub mod Paths
pub mod Store
pub mod Register
pub mod Pending
pub mod Layout
pub mod Locks
pub mod Durable
pub mod Race
pub mod Retries
pub mod Confined
pub mod Memory
mod Samples
