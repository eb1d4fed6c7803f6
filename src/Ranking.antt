-- ===== src/Ranking.antt =====
-- The ranking of long-term memory hits, src/acabot/runtime/memory/long_term_memory/ranking.py.
pub mod Merge
pub mod Hits
pub mod Exact
mod Tests
