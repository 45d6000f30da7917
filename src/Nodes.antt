-- ===== src/Nodes.antt =====
-- The nodes of the context file system: AGFSContextFS of fs/agfs_adapter/agfs_context_fs.py.
pub mod Files
pub mod Meta
pub mod Methods
pub mod Written
pub mod Ordered
pub mod Readback
pub mod Tree
pub mod Present
pub mod Segments
pub mod Built
pub mod Memory
mod Samples
