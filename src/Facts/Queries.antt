-- ===== src/Facts/Queries.antt =====
-- Queries of a thread's records by time, in memory and from SQLite.
use mathlib.Core.List.{Perm}
use aca_bot.Prelude.{
  ℕ, ◌-◌, String, ◌≡◌, refl, Option, none, some, List, [], length, sort-perm, drop_all, arith,
}
use aca_bot.Facts.Records.{Fact}
use aca_bot.Facts.Memory
use aca_bot.Facts.Memory.{FactMemory, of_thread, is_after, has_kind}
use aca_bot.Facts.Table
use aca_bot.Facts.Table.{Rows, by_time}
use aca_bot.Facts.Replies.{Simulates}

module _ {R : Type 0} (f : Fact R) (thread_id : String) (since : Option ℕ)
    (kinds : Option (List String)) (m : FactMemory R) (rows : Rows R) where
  -- In states that stand for each other, without a limit, both stores find the same records of a
  -- thread, up to their order.
  pub get_thread-Perm :
      Simulates f m rows
      → Perm
          (Table.get_thread f thread_id none since kinds rows)
          (Memory.get_thread f thread_id none since kinds m)
  unfolding Table.get_thread Memory.get_thread
  get_thread-Perm s = rw s.same_items (sort-perm (by_time f) _)

  -- With the limit 0 the in-memory store finds all records that it finds without one, and the SQLite
  -- store none.
  pub get_thread_zero :
      (Memory.get_thread f thread_id (some 0) since kinds m
        ≡ Memory.get_thread f thread_id none since kinds m)
      × (Table.get_thread f thread_id (some 0) since kinds rows ≡ [])
  unfolding Table.get_thread Memory.get_thread
  get_thread_zero =
      let all = Table.get_thread f thread_id none since kinds rows in
      (refl, drop_all (length all - 0) all (omega arith))
