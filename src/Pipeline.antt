-- ===== src/Pipeline.antt =====
-- One run of the runtime: src/acabot/runtime/pipeline.py and the sending loop of outbox.py.
pub mod Outbox
pub mod Replies
pub mod Written
pub mod Left
pub mod Stale
pub mod Finish
pub mod Execute
pub mod Settled
pub mod Sent
mod Tests
