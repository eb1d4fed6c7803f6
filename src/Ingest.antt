-- ===== src/Ingest.antt =====
-- The write line of the long term memory: conversation_facts.py, long_term_ingestor.py and
-- long_term_memory/write_port.py under src/acabot/runtime/memory.
pub mod Facts
pub mod Windows
pub mod Cover
pub mod Delta
pub mod World
pub mod Write
pub mod Process
pub mod Grows
pub mod Accounted
pub mod Advance
pub mod Worker
pub mod Drained
mod Tests
