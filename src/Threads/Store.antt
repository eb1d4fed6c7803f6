-- ===== src/Threads/Store.antt =====
-- The `threads` table of `SQLiteThreadStore` (src/acabot/runtime/storage/sqlite_stores.py): rows in
-- the order of their insertion, with `thread_id` as primary key.
use aca_bot.Prelude.{
  ℕ, String, Bool, ◌||◌, ◌&&◌, Option, Dict, lookup, insert, values, ltb, ◌==◌, sort, str_geb, List,
}
use aca_bot.Threads.Records.{ThreadRecord}
use aca_bot.Threads.Memory.{up_to}

abbrev pub Table : Type 0
Table = Dict ThreadRecord

unfoldable pub find_thread : String → Table → Option ThreadRecord
find_thread thread_id t = lookup thread_id t

unfoldable pub upsert : ThreadRecord → Table → Table
upsert thread t = insert thread.thread_id thread t

-- `ORDER BY last_event_at DESC, thread_id ASC`
abbrev pub row_order : ThreadRecord → ThreadRecord → Bool
row_order a b =
    ltb b.last_event_at a.last_event_at
    || (a.last_event_at == b.last_event_at && str_geb b.thread_id a.thread_id)

unfoldable pub list_rows : Option ℕ → Table → List ThreadRecord
unfolding sort
list_rows limit t = up_to limit (sort row_order (values t))
