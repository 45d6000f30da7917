-- ===== src/Commit.antt =====
-- The way of a candidate to a node: commit/ and the modules of core/ that it calls.
pub mod Keys
pub mod Squeeze
pub mod Settled
pub mod Again
pub mod Resolver
pub mod Plan
pub mod Policies
pub mod Chunks
pub mod Router
pub mod Builder
pub mod Planned
pub mod Versions
pub mod Writer
pub mod Once
pub mod Validation
pub mod Valid
pub mod Collide
pub mod Speaker
pub mod Pipeline
pub mod Gather
mod Samples
