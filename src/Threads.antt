-- ===== src/Threads.antt =====
-- Threads: the two managers of src/acabot/runtime/storage/threads.py and the table behind one of them.
pub mod Records
pub mod Memory
pub mod Store
pub mod Backed
pub mod Replies
pub mod Conversation
pub mod Listing
mod Tests
