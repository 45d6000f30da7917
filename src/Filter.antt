-- ===== src/Filter.antt =====
-- The filters that make a tool's output shorter: filter/core.
pub mod Lines
pub mod Truncation
pub mod Bounds
pub mod Overflow
pub mod Dedup
pub mod Runs
pub mod Comments
pub mod Kept
mod Samples
