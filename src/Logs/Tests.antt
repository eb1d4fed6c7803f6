-- ===== src/Logs/Tests.antt =====
-- Examples of the log buffer's theorems.
use mathlib.Core.List.{reverse}
use aca_bot.Prelude.{max, String, ◌≡◌, refl, List, [], ◌∷◌, keep, take, arith, length, ◌<◌, ◌+◌}
use aca_bot.Logs.Buffer.{LogEntry, LogBuffer, init, append, push, assign, Query, list_entries}
use aca_bot.Logs.Polling.{is_asked}
use aca_bot.Logs.Numbers.{IsNumbered}
use aca_bot.Logs.Clients.{append_all, append_all-init, items-list_entries}

abbrev entry : LogEntry
entry = record {
  timestamp = 100;
  level = "INFO";
  logger = "acabot";
  message = "started";
  kind = "runtime";
  seq = 0;
  extra = [];
}

abbrev entries : List LogEntry
entries = entry ∷ entry ∷ entry ∷ []

-- Room for two of the three entries.
abbrev full : LogBuffer
full = append_all entries (init 2)

full-IsNumbered : IsNumbered full
full-IsNumbered = append_all-init entries 2 (refl, (refl, (refl, tt)))

-- ASCII case does not matter in the example.
abbrev same : String → String
same s = s

abbrev query : Query
query = record { after_seq = 1; level = "INFO"; keyword = ""; limit = 10 }

items-list_entries_example :
    (list_entries same same query full).items
    ≡ reverse (take (max 1 10) (keep (is_asked same same query) (reverse full.items)))
items-list_entries_example = items-list_entries same same query full full-IsNumbered

two_left : (0 < length full.items) × (1 + 1 < full.next_seq)
unfolding append_all append push assign init
two_left = (omega arith, omega arith)
