-- ===== src/VectorIndex.antt =====
-- The vector index of providers/vector_index/in_memory_index.py.
pub mod Dict
pub mod Index
pub mod Search
pub mod Records
pub mod Ranking
pub mod Hits
pub mod Found
pub mod Scope
mod Samples
