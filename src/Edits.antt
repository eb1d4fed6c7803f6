-- ===== src/Edits.antt =====
-- src/acabot/runtime/computer/editing.py: the replacement of a text in a file.
pub mod Search
pub mod Lines
pub mod Endings
pub mod Matching
pub mod Diff
pub mod Prepare
pub mod Found
pub mod Newlines
pub mod Detected
pub mod Outcome
pub mod Accepted
pub mod Changes
mod Tests
