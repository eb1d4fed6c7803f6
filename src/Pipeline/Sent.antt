-- ===== src/Pipeline/Sent.antt =====
-- Where the actions of a run end up: delivered or failed.
use aca_bot.Prelude.{ℕ, suc, ◌+◌, String, List, [], ◌∷◌, if◌then◌else◌, str_eq}
use aca_bot.Pipeline.Outbox.{DispatchReport}
use aca_bot.Pipeline.Finish.{action_ids}

-- How often a text stands in a list.
unfoldable pub occurrences : String → List String → ℕ
occurrences k [] = 0
occurrences k (x ∷ xs) = if str_eq x k then suc (occurrences k xs) else occurrences k xs

-- How often the report says of an action what became of it.
abbrev pub accounted : String → DispatchReport → ℕ
accounted k report =
    occurrences k (action_ids report.delivered_items) + occurrences k report.failed_action_ids

abbrev one : String → String → ℕ
one k id = occurrences k (id ∷ [])
