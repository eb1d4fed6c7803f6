-- ===== src/Facts.antt =====
-- The facts of conversations: the event and message stores of src/acabot/runtime/storage.
pub mod Records
pub mod Memory
pub mod Table
pub mod Replies
pub mod Pages
pub mod Saved
pub mod Queries
mod Tests
