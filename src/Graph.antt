-- ===== src/Graph.antt =====
-- The record graph of storage/schema.py, and storage/deletions.py: nodes, relations and evidence, the
-- rows that hang on them, and how a delete intent is admitted and carried out.
pub mod Tables
pub mod Deletions
pub mod Rejections
pub mod Rows
pub mod Children
pub mod Sweeps
pub mod Incident
pub mod Stepping
pub mod Selecting
pub mod Removing
pub mod Clearing
pub mod Purging
pub mod Blocking
pub mod Admitting
pub mod Marking
pub mod Accepting
pub mod Claims
pub mod Marks
pub mod Links
pub mod Backing
mod Tests
