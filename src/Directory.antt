-- ===== src/Directory.antt =====
-- The summaries of directories: index/directory_summarizer.py and index/directory_event_handler.py.
pub mod Summaries
pub mod Records
pub mod Dag
pub mod Task
pub mod Once
pub mod Flat
mod Samples
