-- ===== src/Runs.antt =====
-- The life cycle of runs (src/acabot/runtime/storage/runs.py) and their SQLite store.
pub mod Records
pub mod Memory
pub mod Store
pub mod Backed
pub mod Simulation
pub mod Refinement
pub mod Equivalence
pub mod Lifecycle
pub mod Latest
mod Tests
