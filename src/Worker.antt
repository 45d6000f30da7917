-- ===== src/Worker.antt =====
-- index/outbox_worker.py: the worker that takes events from the outbox to the vector index.
pub mod Result
pub mod Extract
pub mod Services
pub mod Process
pub mod Run
pub mod Backoff
pub mod Tenancy
pub mod Accounting
pub mod Books
pub mod Isolation
pub mod Twice
pub mod Wiring
mod Samples
