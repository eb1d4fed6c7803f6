-- ===== src/Pipeline/Stale.antt =====
-- A compaction whose thread gets replies before it is written.
use aca_bot.Prelude.{ap₂, ap₂}
use aca_bot.Threads.Memory.{Threads}
