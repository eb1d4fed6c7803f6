-- ===== src/Scheduler.antt =====
-- The runtime scheduler (src/acabot/runtime/scheduler).
pub mod Contracts
pub mod Store
pub mod Engine
pub mod Tasks
pub mod Worker
pub mod Recovery
pub mod Heap
pub mod Consistency
pub mod Preservation
pub mod Rounds
pub mod Restart
pub mod Reach
pub mod Timing
pub mod Progress
pub mod Durability
pub mod Backing
pub mod Owners
pub mod Restored
mod Tests
