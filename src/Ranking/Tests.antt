-- ===== src/Ranking/Tests.antt =====
-- Examples of the ranking's theorems.
use aca_bot.Prelude.{ℕ, String, none, List, [], ◌∷◌, All, IsSorted}
use aca_bot.Ranking.Merge.{MemoryEntry, merge_ranked_entry_hits}
use aca_bot.Ranking.Exact.{
  IsExact, channels_first, merge_ranked_entry_hits-IsExact, merge_ranked_entry_hits-IsSorted,
}

abbrev entry : String → ℕ → MemoryEntry
entry entry_id updated_at = record {
  entry_id = entry_id;
  conversation_id = "c1";
  created_at = 1;
  updated_at = updated_at;
  extractor_version = "v1";
  topic = "food";
  lossless_restatement = "Ann likes tea";
  keywords = [];
  time_point = none;
  time_interval_start = none;
  time_interval_end = none;
  location = none;
  persons = [];
  entities = [];
  provenance = [];
}

abbrev semantic : List MemoryEntry
semantic = entry "a" 5 ∷ entry "b" 6 ∷ []

abbrev lexical : List MemoryEntry
lexical = entry "b" 6 ∷ entry "c" 9 ∷ []

abbrev symbolic : List MemoryEntry
symbolic = entry "c" 9 ∷ entry "c" 9 ∷ []

merge_ranked_entry_hits-IsExact_example :
    All (IsExact semantic lexical symbolic) (merge_ranked_entry_hits semantic lexical symbolic)
merge_ranked_entry_hits-IsExact_example = merge_ranked_entry_hits-IsExact semantic lexical symbolic

merge_ranked_entry_hits-IsSorted_example :
    IsSorted channels_first (merge_ranked_entry_hits semantic lexical symbolic)
merge_ranked_entry_hits-IsSorted_example =
    merge_ranked_entry_hits-IsSorted semantic lexical symbolic
