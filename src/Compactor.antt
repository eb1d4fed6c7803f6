-- ===== src/Compactor.antt =====
-- The token-aware compaction of working memory, src/acabot/runtime/memory/context_compactor.py.
pub mod Config
pub mod Text
pub mod Turns
pub mod Compact
pub mod Budget
pub mod Partition
pub mod Survival
pub mod Outcome
pub mod Summarizer
pub mod Summary
pub mod Chain
pub mod Weights
pub mod Fits
mod Tests
