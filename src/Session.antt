-- ===== src/Session.antt =====
-- The sessions of session/: the state of their tasks and their archives.
pub mod State
pub mod Loops
pub mod Archive
pub mod Stored
mod Samples
