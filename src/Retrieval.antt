-- ===== src/Retrieval.antt =====
-- The hierarchical search of retrieval/.
pub mod Walk
pub mod Visits
pub mod Ends
pub mod Origin
mod Samples
