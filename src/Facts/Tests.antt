-- ===== src/Facts/Tests.antt =====
-- Examples of the fact stores' theorems.
use aca_bot.Prelude.{String, ◌≡◌, refl, none, some, List, [], ◌∷◌, ◌++◌, map}
use aca_bot.Errors.{ok}
use aca_bot.Facts.Records.{MessageRecord, Sequenced, message_fact}
use aca_bot.Facts.Memory
use aca_bot.Facts.Table
use aca_bot.Facts.Table.{Rows, load_existing, max_rowid}
use aca_bot.Facts.Saved.{answer, news, save-followed}
use aca_bot.Facts.Replies
use aca_bot.Facts.Replies.{
  Op, Simulates-init, memory_replies, table_replies, fact_replies-same, save-Simulates,
}
use mathlib.Core.List.{Perm}
use aca_bot.Facts.Queries.{get_thread-Perm}
use aca_bot.Facts.Pages.{
  IsAscending, cursor, get_thread_after_sequence-page, save_all, save_all-init-IsAscending,
}

abbrev message : (uid text : String) → MessageRecord
message uid text = record {
  message_uid = uid;
  thread_id = "t1";
  actor_id = "a1";
  platform = "qq";
  role = "user";
  content_text = text;
  content_json = "{}";
  timestamp = 100;
  run_id = none;
  platform_message_id = uid;
  metadata = "{}";
}

-- The third save repeats the first, and the fourth contradicts it.
abbrev calls : List (Op message_fact)
calls =
    Replies.save (message "m1" "hi")
    ∷ Replies.save (message "m2" "you")
    ∷ Replies.save (message "m1" "hi")
    ∷ Replies.save (message "m1" "no")
    ∷ Replies.read "t1" (some 1) (some 5) none
    ∷ []

fact_replies-same_example :
    table_replies message_fact calls [] ≡ memory_replies message_fact calls Memory.init
fact_replies-same_example =
    fact_replies-same message_fact calls Memory.init [] (Simulates-init message_fact)

abbrev records : List MessageRecord
records = message "m1" "hi" ∷ message "m2" "you" ∷ message "m3" "bye" ∷ []

abbrev rows : Rows MessageRecord
rows = save_all message_fact records []

rows-IsAscending : IsAscending rows
rows-IsAscending = save_all-init-IsAscending message_fact records

get_thread_after_sequence-page_example :
    Table.get_thread_after_sequence message_fact "t1" (some 0) none none rows
    ≡ Table.get_thread_after_sequence message_fact "t1" (some 0) (some 2) none rows
      ++ Table.get_thread_after_sequence message_fact "t1"
          (some (
            cursor 0
              (Table.get_thread_after_sequence message_fact "t1" (some 0) (some 2) none rows)))
          none
          none
          rows
get_thread_after_sequence-page_example =
    get_thread_after_sequence-page message_fact "t1" none rows 0 2 rows-IsAscending

accepted : (Table.save message_fact (message "m4" "new") []).0 ≡ ok tt
unfolding Table.save Table.load_existing
accepted = refl

save-followed_example :
    ((Table.save message_fact (message "m4" "new") rows).0
      ≡ answer message_fact (load_existing message_fact "m4" rows) (message "m4" "new"))
    × (load_existing message_fact "m1" (Table.save message_fact (message "m4" "new") rows).1
        ≡ load_existing message_fact "m1" rows)
    × (map
          (λ (row : Sequenced MessageRecord). row.record_of)
          (Table.get_thread_after_sequence message_fact "t1"
            (some (max_rowid rows))
            none
            none
            (Table.save message_fact (message "m4" "new") rows).1)
        ≡ news message_fact "t1" (load_existing message_fact "m4" rows) (message "m4" "new"))
save-followed_example = save-followed message_fact (message "m4" "new") rows "m1" "t1"

abbrev one_message : Memory.FactMemory MessageRecord
one_message = (Memory.save message_fact (message "m1" "hi") Memory.init).1

abbrev one_row : Rows MessageRecord
one_row = (Table.save message_fact (message "m1" "hi") []).1

get_thread-Perm_example :
    Perm
      (Table.get_thread message_fact "t1" none (some 50) none one_row)
      (Memory.get_thread message_fact "t1" none (some 50) none one_message)
get_thread-Perm_example =
    get_thread-Perm message_fact "t1" (some 50) none one_message one_row
      (save-Simulates message_fact Memory.init [] (Simulates-init message_fact)
        (message "m1" "hi")).1
